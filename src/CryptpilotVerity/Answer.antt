-- ===== src/CryptpilotVerity/Answer.antt =====
-- How a function of cryptpilot-verity ends: with a value, with an error, or with a panic.
use cryptpilot.Prelude.{Option, none, some}
use cryptpilot.VerityFuse.FileInfo.{SelfError}

pub data Problem : Type 0 where
  parse_failed unsupported_version missing_path missing_descriptor_hash missing_descriptor : Problem
  missing_root_hash broken_merkle_tree missing_key missing_value json_failed : Problem
  root_hash_mismatch descriptor_mismatch metadata_exists io_failed label_not_found : Problem
  no_source no_output : Problem
  entry_invalid : SelfError → Problem

pub data Answer {ℓ} (A : Type ℓ) : Type ℓ where
  fine : A → Answer A
  problem : Problem → Answer A
  panic : Answer A

infixl 5 ◌>>=◌ ◌>>◌
abbrev pub ◌>>=◌ {ℓ κ} : {A : Type ℓ} {B : Type κ} → Answer A → (A → Answer B) → Answer B
fine a >>= f = f a
problem p >>= f = problem p
panic >>= f = panic

abbrev pub ◌>>◌ {ℓ} : {B : Type ℓ} → Answer (Unit {0}) → Answer B → Answer B
m >> k = m >>= λ _. k

-- `ok_or_else`.
abbrev pub require {ℓ} : {A : Type ℓ} → Option A → Problem → Answer A
require none p = problem p
require (some a) p = fine a

-- A call that may panic.
abbrev pub or_panic {ℓ} : {A : Type ℓ} → Option A → Answer A
or_panic none = panic
or_panic (some a) = fine a
