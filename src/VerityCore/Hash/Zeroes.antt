-- ===== src/VerityCore/Hash/Zeroes.antt =====
-- What `update_zeroes` and `update_padded` of verity-core/src/digest.rs feed to the hash.
use cryptpilot.Prelude.{
  ℕ, zero, suc, ◌+◌, ◌-◌, ◌*◌, ◌/◌, ◌%◌, ◌≤◌, ◌≡◌, refl, sym, ap, ◌∙◌, inl, inr, Bool-cases, some,
  List, ◌++◌, ==_iff, ◌==◌, if◌then◌else◌, length, replicate, replicate-add, arith,
}
use cryptpilot.VerityCore.Hash.{
  InnerHash, HashLaws, zeroes, update_zeroes_loop, update_zeroes, update_padded,
}

module _ {d : InnerHash} (laws : HashLaws d) where
  update_zeroes_loop-replicate :
      (q n : ℕ) (s : d.State)
      → update_zeroes_loop d q (d.update s (replicate n 0)) ≡ d.update s (replicate (n + q * 128) 0)
  unfolding update_zeroes_loop
  update_zeroes_loop-replicate zero n s = ap (λ (k : ℕ). d.update s (replicate k 0)) (omega arith)
  update_zeroes_loop-replicate (suc q) n s =
      ap (update_zeroes_loop d q)
        (laws.update-append s (replicate n 0) zeroes ∙ ap (d.update s) (replicate-add n 128 0 refl))
      ∙ update_zeroes_loop-replicate q (n + 128) s
      ∙ ap (λ (k : ℕ). d.update s (replicate k 0)) (omega arith)

  first_zeroes :
      (r : ℕ) (s : d.State)
      → (if r == 0 then s else d.update s (replicate r 0)) ≡ d.update s (replicate r 0)
  first_zeroes r s = elim (Bool-cases (r == 0)) [
    | inl e ↦ rw e (
        sym (laws.update-nil s)
        ∙ ap (λ (k : ℕ). d.update s (replicate k 0)) (sym ((==_iff r 0).0 e)))
    | inr e ↦ rw e
  ]

  -- The two loops of `update_zeroes` feed exactly `n` zero bytes.
  pub update_zeroes-replicate :
      (s : d.State) (n : ℕ) → update_zeroes d s n ≡ d.update s (replicate n 0)
  unfolding update_zeroes
  update_zeroes-replicate s n =
      ap (update_zeroes_loop d (n / 128)) (first_zeroes (n % 128) s)
      ∙ update_zeroes_loop-replicate (n / 128) (n % 128) s
      ∙ ap (λ (k : ℕ). d.update s (replicate k 0)) (omega arith)

  -- `update_padded` returns if the bytes fit, and feeds them with zero bytes up to the size.
  pub update_padded-replicate :
      (s : d.State) (xs : List ℕ) (n : ℕ)
      → length xs ≤ n
      → update_padded d s xs n ≡ some (d.update s (xs ++ replicate (n - length xs) 0))
  unfolding update_padded
  update_padded-replicate s xs n h = ground (
    arith,
    update_zeroes-replicate (d.update s xs) (n - length xs),
    laws.update-append s xs (replicate (n - length xs) 0),
  )
