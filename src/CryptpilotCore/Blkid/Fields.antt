-- ===== src/CryptpilotCore/Blkid/Fields.antt =====
-- The fields of the output of `blkid -p` (cryptpilot-core/src/fs/blkid.rs): PTTYPE="..." holds TYPE="...",
-- so that a type is found wherever a partition table is.
use cryptpilot.Prelude.{
  ℕ, zero, suc, ◌+◌, ◌≤◌, length, drop, subst, Bool, true, false, Option, none, some, some_eq, List,
  [], ◌∷◌, ◌++◌, ◌==◌, ◌≡◌, ◌↔◌, refl, sym, ap, ◌∙◌, if◌then◌else◌, arith,
}
use cryptpilot.Prelude.Dict.{is_some}
use cryptpilot.Prelude.Text.{codes, strip_prefix, after, before, trim}
use cryptpilot.CryptpilotCore.Blkid.{known_signature, signature, parse_blkid_field, parse_probe}

-- A quote stands in the text.
abbrev Quoted : List ℕ → Type 0
Quoted s = is_some (before b'"' s) ≡ true

Quoted-cons : (c : ℕ) (s : List ℕ) → Quoted s → Quoted (c ∷ s)
Quoted-cons c s h = ground arith

Quoted-drop : (n k : ℕ) (s : List ℕ) → n ≤ k → Quoted (drop k s) → Quoted (drop n s)
Quoted-drop zero zero s le q = q
Quoted-drop zero (suc k) [] le q = q
Quoted-drop zero (suc k) (c ∷ s) le q = Quoted-cons c s (Quoted-drop zero k s (omega arith) q)
Quoted-drop (suc n) zero s le q = absurd (omega arith)
Quoted-drop (suc n) (suc k) [] le q = q
Quoted-drop (suc n) (suc k) (c ∷ s) le q = Quoted-drop n k s (omega arith) q

strip_prefix-tail :
    (a : ℕ) (p : List ℕ) (c : ℕ) (s : List ℕ) {rest : List ℕ}
    → strip_prefix (a ∷ p) (c ∷ s) ≡ some rest
    → strip_prefix p s ≡ some rest
strip_prefix-tail a p c s e = by_test (a == c) e
  where
    by_test :
        {rest : List ℕ} (b : Bool)
        → (if b then strip_prefix p s else none) ≡ some rest
        → strip_prefix p s ≡ some rest
    by_test true e = e
    by_test false e = cc e

strip_prefix-drop :
    (p s : List ℕ) {rest : List ℕ} → strip_prefix p s ≡ some rest → rest ≡ drop (length p) s
strip_prefix-drop [] s e = sym (some_eq e)
strip_prefix-drop (c ∷ p) [] e = cc e
strip_prefix-drop (c ∷ p) (d ∷ s) e = strip_prefix-drop p s (strip_prefix-tail c p d s e)

-- The text after the pattern, if it occurs, has a quote.
abbrev Found : Option (List ℕ) → Type 0
Found none = ⊥
Found (some rest) = Quoted rest

abbrev first : Option (List ℕ) → Option (List ℕ) → Option (List ℕ)
first found later = elim found [ some rest ↦ some rest | none ↦ later ]

after-drop :
    (p s : List ℕ) {rest : List ℕ}
    → after p s ≡ some rest
    → (j : ℕ) × (rest ≡ drop (j + length p) s)
after-drop p [] e = (0, strip_prefix-drop p [] e ∙ ap (λ n. drop n []) (omega arith))
after-drop p (c ∷ s) {rest = rest} e =
    by_prefix (strip_prefix p (c ∷ s)) refl e (λ l. after-drop p s l)
  where
    by_prefix :
        (o : Option (List ℕ))
        → strip_prefix p (c ∷ s) ≡ o
        → first o (after p s) ≡ some rest
        → (after p s ≡ some rest → (j : ℕ) × (rest ≡ drop (j + length p) s))
        → (j : ℕ) × (rest ≡ drop (j + length p) (c ∷ s))
    by_prefix (some r) o e later = (
      0,
      sym (some_eq e) ∙ strip_prefix-drop p (c ∷ s) o ∙ ap (λ n. drop n (c ∷ s)) (omega arith),
    )
    by_prefix none o e later =
        let (j, at) = later e in
        let same : suc (j + length p) ≡ suc j + length p = omega arith in
        (suc j, at ∙ ap (λ n. drop n (c ∷ s)) same)

-- One more character in front changes nothing about it.
Found-cons :
    (x : ℕ) (p : List ℕ) (c : ℕ) (s : List ℕ)
    → Found (after (x ∷ p) s)
    → Found (after (x ∷ p) (c ∷ s))
Found-cons x p c s found =
    by_prefix (strip_prefix (x ∷ p) (c ∷ s)) refl (after (x ∷ p) s) refl found
  where
    by_prefix :
        (o : Option (List ℕ))
        → strip_prefix (x ∷ p) (c ∷ s) ≡ o
        → (later : Option (List ℕ)) → after (x ∷ p) s ≡ later
        → Found later
        → Found (first o later)
    by_prefix none o later l found = found
    by_prefix (some r) o none l found = absurd found
    by_prefix (some r) o (some rest) l found =
        let (j, at) = after-drop (x ∷ p) s l in
        subst Quoted (sym (strip_prefix-drop (x ∷ p) (c ∷ s) o))
          (Quoted-drop (length p) (j + length (x ∷ p)) s (omega arith) (subst Quoted at found))

after_of_strip_prefix :
    (p s : List ℕ) {rest : List ℕ} → strip_prefix p s ≡ some rest → after p s ≡ some rest
after_of_strip_prefix p [] e = e
after_of_strip_prefix p (c ∷ s) e = ap (λ o. first o (after p s)) e

Found-of_strip_prefix :
    (x : ℕ) (p s : List ℕ) {rest : List ℕ}
    → strip_prefix (x ∷ p) s ≡ some rest
    → Quoted rest
    → Found (after (x ∷ p) s)
Found-of_strip_prefix x p s e q = subst Found (sym (after_of_strip_prefix (x ∷ p) s e)) q

-- Two characters before the pattern change nothing about it.
Found-of_longer :
    (a b x : ℕ) (p s : List ℕ) {rest : List ℕ}
    → strip_prefix (a ∷ b ∷ x ∷ p) s ≡ some rest
    → Quoted rest
    → Found (after (x ∷ p) s)
Found-of_longer a b x p [] e q = cc e
Found-of_longer a b x p (c ∷ []) e q = cc (strip_prefix-tail a (b ∷ x ∷ p) c [] e)
Found-of_longer a b x p (c ∷ d ∷ s) e q =
    let inner = strip_prefix-tail b (x ∷ p) d s (strip_prefix-tail a (b ∷ x ∷ p) c (d ∷ s) e) in
    Found-cons x p c (d ∷ s) (Found-cons x p d s (Found-of_strip_prefix x p s inner q))

-- Where the longer key is found, so is the shorter one that ends it.
Found-longer :
    (a b x : ℕ) (p s : List ℕ) → Found (after (a ∷ b ∷ x ∷ p) s) → Found (after (x ∷ p) s)
Found-longer a b x p [] found = absurd found
Found-longer a b x p (c ∷ s) found =
    by_prefix (strip_prefix (a ∷ b ∷ x ∷ p) (c ∷ s)) refl found (Found-longer a b x p s)
  where
    by_prefix :
        (o : Option (List ℕ))
        → strip_prefix (a ∷ b ∷ x ∷ p) (c ∷ s) ≡ o
        → Found (first o (after (a ∷ b ∷ x ∷ p) s))
        → (Found (after (a ∷ b ∷ x ∷ p) s) → Found (after (x ∷ p) s))
        → Found (after (x ∷ p) (c ∷ s))
    by_prefix none o found later = Found-cons x p c s (later found)
    by_prefix (some r) o found later = Found-of_longer a b x p (c ∷ s) o found

-- A field is there exactly when a quote stands after its key.
field_iff :
    (key s : List ℕ)
    → (is_some (parse_blkid_field s key) ≡ true) ↔ Found (after (key ++ b'=' ∷ b'"' ∷ []) s)
unfolding parse_blkid_field
field_iff key s = by_after (after (key ++ b'=' ∷ b'"' ∷ []) s)
  where
    by_after :
        (o : Option (List ℕ))
        → (is_some (elim o as (λ _. Option (List ℕ)) [ none ↦ none | some rest ↦ before b'"' rest ])
            ≡ true)
          ↔ Found o
    by_after none = ((λ h. cc h), (λ h. absurd h))
    by_after (some rest) = ((λ h. h), (λ h. h))

-- A type is found wherever a partition table is.
type_of_table :
    (s : List ℕ)
    → is_some (parse_blkid_field s (codes "PTTYPE")) ≡ true
    → is_some (parse_blkid_field s (codes "TYPE")) ≡ true
type_of_table s h = (field_iff (codes "TYPE") s).1 (
    Found-longer b'P' b'T' b'T' (codes "YPE" ++ b'=' ∷ b'"' ∷ []) s
      ((field_iff (codes "PTTYPE") s).0 h))

signature_found :
    (fs_type pt_type subsystem : Option (List ℕ))
    → (is_some pt_type ≡ true → is_some fs_type ≡ true)
    → signature fs_type pt_type subsystem ≡ known_signature fs_type pt_type subsystem
signature_found none none subsystem imp = refl
signature_found none (some pt_type) subsystem imp = cc (imp refl)
signature_found (some fs_type) pt_type subsystem imp = refl

-- Whatever blkid prints when it ends with 0, the result is a known signature with the fields that were
-- parsed: an "atari" partition table is never taken for no signature, since its PTTYPE="atari" is read
-- as a TYPE too.
pub parse_probe-known :
    (output : List ℕ)
    → parse_probe output
      ≡ known_signature
          (parse_blkid_field (trim output) (codes "TYPE"))
          (parse_blkid_field (trim output) (codes "PTTYPE"))
          (parse_blkid_field (trim output) (codes "SUBSYSTEM"))
unfolding parse_probe
parse_probe-known output = signature_found _ _ _ (type_of_table (trim output))
