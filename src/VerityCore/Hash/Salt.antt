-- ===== src/VerityCore/Hash/Salt.antt =====
-- `salt_to_digest` of verity-core/src/digest.rs feeds the salt up to a whole number of input blocks.
use cryptpilot.Prelude.{
  ℕ, zero, suc, ◌+◌, ◌-◌, ◌*◌, ◌≤◌, ◌<◌, ◌≡◌, sym, ap, ◌∙◌, some, List, [], ◌∷◌, ◌++◌, append-nil,
  append_assoc, length, length-drop, length-take, replicate, take, drop, take-append-drop,
  take_of_length-le, drop_of_length-le, chunks, chunks-step, chunks-nil, arith, ◌>>=◌,
}
use native.Mathlib.Decide.{dec_le}
use cryptpilot.VerityCore.Hash.{InnerHash, HashLaws, salt_loop, salt_to_digest}
use cryptpilot.VerityCore.Hash.Zeroes.{update_padded-replicate}

-- As few zero bytes after `n` others as fill whole blocks of `size` bytes.
abbrev pub Fills : ℕ → ℕ → ℕ → Type 0
Fills size n zeroes = (zeroes < size) × (blocks : ℕ) × (n + zeroes ≡ blocks * size)

module _ {d : InnerHash} (laws : HashLaws d) (some_bytes : 0 < d.input_block_size) where
  abbrev size : ℕ
  size = d.input_block_size

  -- The state after the salt, and zero bytes after it.
  abbrev Fed : d.State → List ℕ → Type 0
  Fed s salt =
      (zeroes : ℕ) × Fills size (length salt) zeroes
      × (salt_loop d s (chunks size salt) ≡ some (d.update s (salt ++ replicate zeroes 0)))

  no_salt : (s : d.State) → Fed s []
  unfolding salt_loop
  no_salt s = (
    0,
    (some_bytes, 0, omega arith),
    ap (salt_loop d s) (chunks-nil size) ∙ ap some (sym (laws.update-nil s)),
  )

  loop_step :
      (s : d.State) (chunk : List ℕ) (rest : List (List ℕ))
      → length chunk ≤ size
      → salt_loop d s (chunk ∷ rest)
        ≡ salt_loop d (d.update s (chunk ++ replicate (size - length chunk) 0)) rest
  unfolding salt_loop
  loop_step s chunk rest fit =
      ap (λ o. o >>= λ s'. salt_loop d s' rest) (update_padded-replicate laws s chunk size fit)

  last_block : (s : d.State) (salt : List ℕ) → 0 < length salt → length salt ≤ size → Fed s salt
  unfolding salt_loop
  last_block s salt nonempty fit = (
    size - length salt,
    (omega arith, 1, omega arith),
    ap (salt_loop d s) (
          chunks-step size salt some_bytes nonempty
          ∙ ap (λ (t : List ℕ). t ∷ chunks size (drop size salt)) (take_of_length-le size salt fit)
          ∙ ap (λ (t : List ℕ). salt ∷ chunks size t) (drop_of_length-le size salt fit)
          ∙ ap (◌∷◌ salt) (chunks-nil size))
        ∙ loop_step s salt [] fit,
  )

  whole_block :
      (s : d.State) (salt : List ℕ)
      → size < length salt
      → Fed (d.update s (take size salt)) (drop size salt)
      → Fed s salt
  whole_block s salt more (zeroes, (few, blocks, whole), run) =
      let full : length (take size salt) ≡ size = omega (arith, length-take size salt) in
      (
        zeroes,
        (few, blocks + 1, omega (arith, length-drop size salt)),
        ap (salt_loop d s) (chunks-step size salt some_bytes (omega arith))
            ∙ loop_step s (take size salt) (chunks size (drop size salt)) (omega arith)
            ∙ ap (λ (t : List ℕ). salt_loop d (d.update s t) (chunks size (drop size salt)))
                (ap (λ (n : ℕ). take size salt ++ replicate n 0) {y = 0} (omega arith)
                  ∙ append-nil (take size salt))
            ∙ run
            ∙ ap some (
                laws.update-append s (take size salt) (drop size salt ++ replicate zeroes 0)
                ∙ ap (d.update s) (
                    sym (append_assoc (take size salt) (drop size salt) (replicate zeroes 0))
                    ∙ ap (λ (t : List ℕ). t ++ replicate zeroes 0) (take-append-drop size salt))),
      )

  fed : (fuel : ℕ) (s : d.State) (salt : List ℕ) → length salt ≤ fuel → Fed s salt
  fed fuel s [] enough = no_salt s
  fed zero s (b ∷ salt) enough = absurd (omega arith)
  fed (suc fuel) s (b ∷ salt) enough = elim (dec_le (length (b ∷ salt)) size) [
    | yes fit ↦ last_block s (b ∷ salt) (omega arith) fit
    | no more ↦ whole_block s (b ∷ salt) (omega arith) (
        fed fuel (d.update s (take size (b ∷ salt))) (drop size (b ∷ salt))
          (omega (arith, length-drop size (b ∷ salt))))
  ]

  -- The salted state is that of the salt and of zero bytes up to a whole number of blocks.
  pub salt_to_digest-Fills :
      (salt : List ℕ)
      → (zeroes : ℕ) × Fills d.input_block_size (length salt) zeroes
        × (salt_to_digest d salt ≡ some (d.update d.new_state (salt ++ replicate zeroes 0)))
  unfolding salt_to_digest
  salt_to_digest-Fills salt = fed (length salt) d.new_state salt (omega arith)
