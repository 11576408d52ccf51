-- ===== src/VerityCore/Digest/Root.antt =====
-- The specification of the Merkle tree: its root is one function of the bytes, and zero bytes that
-- fill up the last block do not change it.
use cryptpilot.Prelude.{
  ℕ, zero, suc, ◌+◌, ◌≤◌, ◌<◌, ◌≡◌, refl, sym, ap, ◌∙◌, subst, List, [], ◌∷◌, ◌++◌, length, concat,
  AllLength, take, drop, replicate, length-replicate, length-take, length-drop, length-append,
  take-append-drop, append_assoc, chunks, arith,
}
use native.Mathlib.Decide.{dec_le}
use cryptpilot.VerityCore.Hash.{InnerHash, HashLaws}
use cryptpilot.VerityCore.Block.{FsVerityConfig}
use cryptpilot.VerityCore.Block.Content.{Fits, block_hash, length-block_hash, block_hash-zeroes}
use cryptpilot.VerityCore.Digest.Invariant.{hashes_of, IsRoot}
use cryptpilot.VerityCore.Digest.Climb.{hashes_of-snoc}
use cryptpilot.VerityCore.Digest.Finish.{chunks_blocks}

-- Whole blocks and a last one that is not empty.
abbrev pub Split : ℕ → List ℕ → Type 0
Split n bytes =
    (blocks : List (List ℕ)) × (last : List ℕ) × (bytes ≡ concat blocks ++ last)
    × AllLength n blocks
    × (0 < length last)
    × (length last ≤ n)

Split-from :
    (fuel n : ℕ) (bytes : List ℕ) → 0 < n → 0 < length bytes → length bytes ≤ fuel → Split n bytes
Split-from zero n bytes p pos h = absurd (omega arith)
Split-from (suc fuel) n bytes p pos h = elim (dec_le (length bytes) n) [
  | yes one ↦ ([], bytes, refl, tt, pos, one)
  | no more ↦
      let (blocks, last, e, all, some_last, small) =
        Split-from fuel n (drop n bytes) p (omega (arith, length-drop n bytes))
          (omega (arith, length-drop n bytes)) in
      (
        take n bytes ∷ blocks,
        last,
        sym (take-append-drop n bytes)
            ∙ ap (◌++◌ (take n bytes)) e
            ∙ sym (append_assoc (take n bytes) (concat blocks) last),
        (omega (arith, length-take n bytes), all),
        some_last,
        small,
      )
]

pub split : (n : ℕ) (bytes : List ℕ) → 0 < n → 0 < length bytes → Split n bytes
split n bytes p pos = Split-from (length bytes) n bytes p pos (omega arith)

-- Bytes that fit into one block are the last block.
one_block :
    (n : ℕ) (blocks : List (List ℕ)) (last : List ℕ) {bytes : List ℕ}
    → bytes ≡ concat blocks ++ last
    → AllLength n blocks
    → 0 < length last
    → length bytes ≤ n
    → bytes ≡ last
one_block n [] last e all pos small = e
one_block n (b ∷ blocks) last e all pos small = absurd (
    omega (
      arith,
      ap (length {A = ℕ}) e,
      length-append (b ++ concat blocks) last,
      length-append b (concat blocks),
      all.0,
    ))

module _ {d : InnerHash} (laws : HashLaws d) (config : FsVerityConfig d)
    (fits : Fits d config) where
  -- Some bytes have at most one root.
  pub IsRoot-unique :
      {bytes r1 r2 : List ℕ} → IsRoot config bytes r1 → IsRoot config bytes r2 → r1 ≡ r2
  IsRoot-unique (IsRoot.zeroes e h) (IsRoot.zeroes e' h') = h ∙ sym h'
  IsRoot-unique (IsRoot.zeroes e h) (IsRoot.single pos small h') =
      absurd (omega (arith, ap (length {A = ℕ}) e))
  IsRoot-unique (IsRoot.zeroes e h) (IsRoot.above big r) =
      absurd (omega (arith, ap (length {A = ℕ}) e))
  IsRoot-unique (IsRoot.single pos small h) (IsRoot.zeroes e h') =
      absurd (omega (arith, ap (length {A = ℕ}) e))
  IsRoot-unique (IsRoot.single pos small h) (IsRoot.single pos' small' h') = h ∙ sym h'
  IsRoot-unique (IsRoot.single pos small h) (IsRoot.above big r) = absurd (omega arith)
  IsRoot-unique (IsRoot.above big r) (IsRoot.zeroes e h) =
      absurd (omega (arith, ap (length {A = ℕ}) e))
  IsRoot-unique (IsRoot.above big r) (IsRoot.single pos small h) = absurd (omega arith)
  IsRoot-unique (IsRoot.above big r) (IsRoot.above big' r') = IsRoot-unique r r'

  -- A root has the size of a digest.
  pub IsRoot-length : {bytes root : List ℕ} → IsRoot config bytes root → length root ≡ d.output_size
  IsRoot-length (IsRoot.zeroes e h) =
      ap (length {A = ℕ}) h ∙ length-replicate {A = ℕ} d.output_size 0
  IsRoot-length (IsRoot.single pos small h) =
      ap (length {A = ℕ}) h ∙ length-block_hash laws config _
  IsRoot-length (IsRoot.above big r) = IsRoot-length r

  pub hashes_of_split :
      (blocks : List (List ℕ)) (last : List ℕ) {bytes : List ℕ}
      → bytes ≡ concat blocks ++ last
      → AllLength config.block_size blocks
      → 0 < length last
      → length last ≤ config.block_size
      → hashes_of config (chunks config.block_size bytes)
        ≡ hashes_of config blocks ++ block_hash config last
  hashes_of_split blocks last e all pos small =
      ap (hashes_of config)
        (ap (chunks config.block_size) e ∙ chunks_blocks laws config fits blocks last all pos small)
      ∙ sym (hashes_of-snoc laws config fits blocks last)

  -- The zero bytes that fill up the last block do not change the root.
  pub IsRoot-zeroes :
      {bytes root : List ℕ} (blocks : List (List ℕ)) (last : List ℕ) (n : ℕ)
      → bytes ≡ concat blocks ++ last
      → AllLength config.block_size blocks
      → 0 < length last
      → length last + n ≤ config.block_size
      → IsRoot config bytes root
      → IsRoot config (bytes ++ replicate n 0) root
  IsRoot-zeroes blocks last n e all pos fit (IsRoot.zeroes none_there h) =
      absurd (
        omega (arith, ap (length {A = ℕ}) (sym e ∙ none_there), length-append (concat blocks) last))
  IsRoot-zeroes {bytes} blocks last n e all pos fit (IsRoot.single some_byte small h) =
      IsRoot.single (omega (arith, length-append bytes (replicate n 0)))
        (omega (
          arith,
          length-append bytes (replicate n 0),
          length-replicate {A = ℕ} n 0,
          ap (length {A = ℕ}) one,
        ))
        (h ∙ sym (block_hash-zeroes laws config bytes n (omega (arith, ap (length {A = ℕ}) one))))
    where
      one : bytes ≡ last
      one = one_block config.block_size blocks last e all pos small
  IsRoot-zeroes {bytes} {root} blocks last n e all pos fit (IsRoot.above big r) =
      IsRoot.above (omega (arith, length-append bytes (replicate n 0))) (
        subst (λ (t : List ℕ). IsRoot config t root)
          (hashes_of_split blocks last e all pos (omega arith)
            ∙ ap (λ (t : List ℕ). hashes_of config blocks ++ t)
                (sym (block_hash-zeroes laws config last n fit))
            ∙ sym (
                hashes_of_split blocks (last ++ replicate n 0) longer all
                  (omega (arith, length-append last (replicate n 0)))
                  (omega
                    (arith, length-append last (replicate n 0), length-replicate {A = ℕ} n 0))))
          r)
    where
      longer : bytes ++ replicate n 0 ≡ concat blocks ++ (last ++ replicate n 0)
      longer =
          ap (λ (t : List ℕ). t ++ replicate n 0) e
          ∙ append_assoc (concat blocks) last (replicate n 0)
