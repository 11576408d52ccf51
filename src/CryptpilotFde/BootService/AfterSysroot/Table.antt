-- ===== src/CryptpilotFde/BootService/AfterSysroot/Table.antt =====
-- What a line of the table of mounts says, and the search in it of cryptpilot-fde/src/cmd/boot_service/
-- stage/after_sysroot.rs.
use cryptpilot.Prelude.{
  ℕ, Bool, true, ◌&&◌, not, Option, none, some, some_eq, List, [], ◌∷◌, ◌++◌, append-nil, ◌≡◌, refl,
  sym, ap, ◌∙◌, ◌⊎◌, inl, inr, ◌==◌, ==_iff, bytes_eq, bytes_eq→eq, bytes_eq_refl, Bool-cases,
  Option-cases, arith, if◌then◌else◌,
}
use cryptpilot.Prelude.Text.{codes, split_at}
use cryptpilot.CryptpilotFde.BootService.AfterSysroot.{mounted_at, sysroot_device}

abbrev pub no_space : List ℕ → Bool
no_space [] = true
no_space (c ∷ s) = not (c == 32) && no_space s

-- The end of the line, or a space and more.
abbrev pub Stops : List ℕ → Type 0
Stops tail = (tail ≡ []) ⊎ ((rest : List ℕ) × (tail ≡ 32 ∷ rest))

-- The line starts with the device, a space and the place as whole words.
abbrev pub Mounted : List ℕ → List ℕ → List ℕ → Type 0
Mounted line device place =
    (no_space device ≡ true)
    × (tail : List ℕ) × (line ≡ device ++ 32 ∷ (place ++ tail))
    × Stops tail

-- The first line that mounts something at the place has this device.
pub data First (place device : List ℕ) : List (List ℕ) → Type 0 where
  here :
      {line : List ℕ} {rest : List (List ℕ)}
      → Mounted line device place
      → First place device (line ∷ rest)
  later :
      {line : List ℕ} {rest : List (List ℕ)}
      → ((other : List ℕ) → ¬ Mounted line other place)
      → First place device rest
      → First place device (line ∷ rest)

-- The cut at the first space.
split_whole : (s : List ℕ) → no_space s ≡ true → split_at 32 s ≡ s ∷ []
split_whole [] h = refl
split_whole (c ∷ s) h = let rest = split_whole s (ground arith) in ground (arith, rest)

split_word : (d s : List ℕ) → no_space d ≡ true → split_at 32 (d ++ 32 ∷ s) ≡ d ∷ split_at 32 s
split_word [] s h = refl
split_word (c ∷ d) s h = let rest = split_word d s (ground arith) in ground (arith, rest)

Cut : List ℕ → Type 0
Cut s =
    (no_space s ≡ true)
    ⊎ ((d : List ℕ) × (rest : List ℕ) × (no_space d ≡ true) × (s ≡ d ++ 32 ∷ rest))

cut : (s : List ℕ) → Cut s
unfolding Cut
cut [] = inl refl
cut (c ∷ s) = elim (Bool-cases (c == 32)) [
  | inl space ↦ inr ([], s, refl, ap (λ (t : ℕ). t ∷ s) ((==_iff c 32).0 space))
  | inr other ↦ elim (cut s) [
    | inl whole ↦ inl (ground arith)
    | inr (d, rest, word, e) ↦ inr (c ∷ d, rest, ground arith, ap (◌∷◌ c) e)
  ]
]

-- The search in one line.
module _ (place : List ℕ) where
  at_place :
      (d p device : List ℕ)
      → (if bytes_eq p place then some d else none) ≡ some device
      → (p ≡ place) × (d ≡ device)
  at_place d p device h = elim (Bool-cases (bytes_eq p place)) [
    | inl same ↦ (
      bytes_eq→eq p place same,
      some_eq (sym (ap (λ (b : Bool). if b then some d else none) same) ∙ h),
    )
    | inr other ↦ cc (sym (ap (λ (b : Bool). if b then some d else none) other) ∙ h)
  ]

  mounted_at-Mounted :
      (line device : List ℕ)
      → mounted_at (split_at 32 line) place ≡ some device
      → Mounted line device place
  unfolding Cut
  mounted_at-Mounted line device h = elim (cut line) [
    | inl whole ↦ cc (sym (ap (λ t. mounted_at t place) (split_whole line whole)) ∙ h)
    | inr (d, rest, word, e) ↦
        let split : split_at 32 line ≡ d ∷ split_at 32 rest =
          ap (split_at 32) e ∙ split_word d rest word in
        elim (cut rest) [
          | inl whole ↦
              let (p, q) = at_place d rest device (
                sym (ap (λ t. mounted_at t place) (split ∙ ap (◌∷◌ d) (split_whole rest whole)))
                ∙ h) in
              (
                ap no_space (sym q) ∙ word,
                [],
                e
                    ∙ ap (λ (t : List ℕ). t ++ 32 ∷ rest) q
                    ∙ ap (λ (t : List ℕ). device ++ 32 ∷ t) (p ∙ sym (append-nil place)),
                inl refl,
              )
          | inr (w, tail, word', e') ↦
              let (p, q) = at_place d w device (
                sym (
                  ap (λ t. mounted_at t place)
                    (split ∙ ap (◌∷◌ d) (ap (split_at 32) e' ∙ split_word w tail word')))
                ∙ h) in
              (
                ap no_space (sym q) ∙ word,
                32 ∷ tail,
                e
                    ∙ ap (λ (t : List ℕ). t ++ 32 ∷ rest) q
                    ∙ ap (λ (t : List ℕ). device ++ 32 ∷ t)
                        (e' ∙ ap (λ (t : List ℕ). t ++ 32 ∷ tail) p),
                inr (tail, refl),
              )
        ]
  ]

  module _ (word : no_space place ≡ true) where
    split_place :
        (tail : List ℕ)
        → Stops tail
        → (fields : List (List ℕ)) × (split_at 32 (place ++ tail) ≡ place ∷ fields)
    split_place tail (inl e) = (
      [],
      ap (λ t. split_at 32 (place ++ t)) e
          ∙ ap (split_at 32) (append-nil place)
          ∙ split_whole place word,
    )
    split_place tail (inr (rest, e)) =
        (split_at 32 rest, ap (λ t. split_at 32 (place ++ t)) e ∙ split_word place rest word)

    Mounted-mounted_at :
        (line device : List ℕ)
        → Mounted line device place
        → mounted_at (split_at 32 line) place ≡ some device
    Mounted-mounted_at line device (plain, tail, e, stops) =
        let (fields, split) = split_place tail stops in
        ap (λ t. mounted_at t place)
          (ap (split_at 32) e ∙ split_word device (place ++ tail) plain ∙ ap (◌∷◌ device) split)
        ∙ ap (λ (b : Bool). if b then some device else none) (bytes_eq_refl place)

-- The loop over the lines finds the first one.
pub sysroot_device-First :
    (table : List (List ℕ)) (device : List ℕ)
    → sysroot_device table ≡ some device
    → First (codes "/sysroot") device table
sysroot_device-First [] device h = cc h
sysroot_device-First (line ∷ rest) device h =
    elim (Option-cases (mounted_at (split_at 32 line) (codes "/sysroot"))) [
      | inl nothing ↦
          First.later
            (λ other mounted.
              cc (nothing, Mounted-mounted_at (codes "/sysroot") refl line other mounted))
            (sysroot_device-First rest device (sym (ap found nothing) ∙ h))
      | inr (first, e) ↦
          First.here (mounted_at-Mounted (codes "/sysroot") line device (e ∙ sym (ap found e) ∙ h))
    ]
  where
    found : Option (List ℕ) → Option (List ℕ)
    found o = elim o [ some d ↦ some d | none ↦ sysroot_device rest ]
