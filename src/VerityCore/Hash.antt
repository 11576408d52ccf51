-- ===== src/VerityCore/Hash.antt =====
-- The inner hash of verity-core/src/digest.rs: the trait `InnerHash` over the crate `digest`, which
-- is a parameter here, and its own two methods and the salted state.
pub mod Zeroes
pub mod Salt
use cryptpilot.Prelude.{
  ℕ, zero, suc, ◌-◌, ◌+◌, ◌/◌, ◌%◌, ◌*◌, ◌^◌, ◌≤◌, ◌<◌, ◌≡◌, refl, ap, ◌∙◌, Option, none, some,
  List, [], ◌∷◌, ◌++◌, ltb, ◌==◌, if◌then◌else◌, ◌>>=◌, length, replicate, replicate-add, chunks,
  arith,
}
use cryptpilot.VerityCore.Config.{InnerHashAlgorithm}

-- The bounds `Digest + BlockSizeUser + Clone + Default` of the trait: a hash of bytes in steps.
pub record InnerHash : Type 1 where
  pub State : Type 0
  pub new_state : State
  pub update : State → List ℕ → State
  pub finalize : State → List ℕ
  pub output_size : ℕ
  pub input_block_size : ℕ
  pub inner_hash_algorithm : InnerHashAlgorithm

-- What the documentation of `Digest` promises: only the bytes fed count, and not how they were cut;
-- the output has a fixed size, a power of two for the two hashes in use.
pub record HashLaws (d : InnerHash) : Type 0 where
  pub update-nil : (s : d.State) → d.update s [] ≡ s
  pub update-append :
      (s : d.State) (xs ys : List ℕ) → d.update (d.update s xs) ys ≡ d.update s (xs ++ ys)
  pub length-finalize : (s : d.State) → length (d.finalize s) ≡ d.output_size
  pub output_log : ℕ
  pub output_size_pow : d.output_size ≡ 2 ^ output_log

-- `static ZEROES: [u8; 128]`
abbrev pub zeroes : List ℕ
zeroes = replicate 128 0

module _ (d : InnerHash) where
  -- The `for _ in 0..quotient` of `update_zeroes`.
  pub update_zeroes_loop : ℕ → d.State → d.State
  update_zeroes_loop zero s = s
  update_zeroes_loop (suc quotient) s = update_zeroes_loop quotient (d.update s zeroes)

  unfoldable pub update_zeroes : d.State → ℕ → d.State
  unfolding update_zeroes_loop
  update_zeroes s amount =
      let remainder = amount % 128 in
      update_zeroes_loop (amount / 128)
        (if remainder == 0 then s else d.update s (replicate remainder 0))

  -- `none` is the panic on `data.len() > padded_size`.
  unfoldable pub update_padded : d.State → List ℕ → ℕ → Option d.State
  unfolding update_zeroes
  update_padded s content padded_size =
      if ltb padded_size (length content)
      then none
      else some (update_zeroes (d.update s content) (padded_size - length content))

  pub salt_loop : d.State → List (List ℕ) → Option d.State
  salt_loop s [] = some s
  salt_loop s (chunk ∷ rest) = update_padded s chunk d.input_block_size >>= λ s'. salt_loop s' rest

  unfoldable pub salt_to_digest : List ℕ → Option d.State
  unfolding salt_loop chunks
  salt_to_digest salt = salt_loop d.new_state (chunks d.input_block_size salt)
