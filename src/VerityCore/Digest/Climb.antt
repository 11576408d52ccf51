-- ===== src/VerityCore/Digest/Climb.antt =====
-- The loop over the levels in `update` of verity-core/src/digest.rs, from level 1 up: one digest is
-- written into a level, and the levels that fill up are hashed into the next one.
use cryptpilot.Prelude.{
  ℕ, zero, suc, ◌+◌, ◌-◌, ◌*◌, ◌≤◌, ◌<◌, ◌≡◌, refl, sym, ap, ◌∙◌, subst, inl, inr, true, false,
  Bool-cases, some, List, [], ◌∷◌, ◌++◌, ◌>>=◌, leb, leb→le, ◌==◌, length, concat, map, AllLength,
  AllLength-append, append-nil, append_assoc, map-append, concat-append, length-append, arith,
}
use cryptpilot.VerityCore.Hash.{InnerHash, HashLaws}
use cryptpilot.VerityCore.Block.{FsVerityConfig, FixedSizeBlock}
use cryptpilot.VerityCore.Block.Content.{
  Fits, level_of, block_hash, length-block_hash, append-block_new, overflowing_append_fits,
  finalize_into_and_reset-level_of,
}
use cryptpilot.VerityCore.Merkle.{MerkleTree}
use cryptpilot.VerityCore.Digest.{climb}
use cryptpilot.VerityCore.Digest.Invariant.{hashes_of, Eager}

-- Two multiples of `o` that differ by less than `o` are equal.
mul_gap : (a f o n b : ℕ) → n + o ≡ a * o → b ≡ f * o → n + o ≤ b → b - (n + o) < o → n + o ≡ b
mul_gap zero f o n b e g h less = absurd (omega arith)
mul_gap (suc a) zero o n b e g h less = absurd (omega arith)
mul_gap (suc zero) (suc zero) o n b e g h less = omega arith
mul_gap (suc zero) (suc (suc f)) o n b e g h less = absurd (omega arith)
mul_gap (suc (suc a)) (suc f) o n b e g h less = omega (
  arith,
  mul_gap (suc a) f o (n - o) (b - o) (omega arith) (omega arith) (omega arith) (omega arith),
)

two_blocks : (f o b : ℕ) → 2 ≤ f → b ≡ f * o → o + o ≤ b
two_blocks zero o b h e = absurd (omega arith)
two_blocks (suc zero) o b h e = absurd (omega arith)
two_blocks (suc (suc f)) o b h e = omega arith

pub not_zero : (n : ℕ) → 0 < n → (n == 0) ≡ false
not_zero n h = ground arith

leb_false→lt : (a b : ℕ) → leb a b ≡ false → b < a
leb_false→lt a b h = ground arith

module _ {d : InnerHash} (laws : HashLaws d) (config : FsVerityConfig d)
    (fits : Fits d config) where
  -- The new top level that `update` adds for what still overflows after the loop.
  abbrev pub seal : List (FixedSizeBlock d) → List ℕ → List (FixedSizeBlock d)
  seal levels [] = levels
  seal levels (x ∷ xs) = levels ++ level_of config (x ∷ xs) ∷ []

  pub seal-cons :
      (top : FixedSizeBlock d) (levels : List (FixedSizeBlock d)) (overflow : List ℕ)
      → seal (top ∷ levels) overflow ≡ top ∷ seal levels overflow
  seal-cons top levels [] = refl
  seal-cons top levels (x ∷ xs) = refl

  -- A block that is full goes to the blocks, and its hash to the level above.
  pub hashes_of-snoc :
      (blocks : List (List ℕ)) (content : List ℕ)
      → hashes_of config blocks ++ block_hash config content
        ≡ hashes_of config (blocks ++ content ∷ [])
  hashes_of-snoc blocks content = sym (
      ap concat (map-append (block_hash config) blocks (content ∷ []))
      ∙ concat-append (map (block_hash config) blocks) (block_hash config content ∷ [])
      ∙ ap (λ (t : List ℕ). hashes_of config blocks ++ t) (append-nil (block_hash config content)))

  pub concat-snoc :
      (blocks : List (List ℕ)) (content : List ℕ)
      → concat (blocks ++ content ∷ []) ≡ concat blocks ++ content
  concat-snoc blocks content =
      concat-append blocks (content ∷ []) ∙ ap (◌++◌ (concat blocks)) (append-nil content)

  -- A level whose content is a whole number of digests, and has room for one, is full or has room
  -- for one more when a digest was added.
  room_or_full :
      (m n : ℕ)
      → n ≡ m * d.output_size
      → n + d.output_size ≤ config.block_size
      → config.block_size - (n + d.output_size) < d.output_size
      → n + d.output_size ≡ config.block_size
  room_or_full m n e h less =
      mul_gap (suc m) fits.factor d.output_size n config.block_size (omega arith) fits.block_size_eq
        h less

  module _ (index : ℕ) (content digest : List ℕ) (levels : List (FixedSizeBlock d))
      (tree : MerkleTree) (fit : length content + length digest ≤ config.block_size) where
    climb-stay :
        leb d.output_size (config.block_size - length (content ++ digest)) ≡ true
        → climb d config true index (level_of config content ∷ levels) digest tree
          ≡ some (level_of config (content ++ digest) ∷ levels, [], tree)
    unfolding climb
    climb-stay room = rw (overflowing_append_fits laws config content digest fit) (rw room)

    climb-flush :
        0 < index
        → leb d.output_size (config.block_size - length (content ++ digest)) ≡ false
        → climb d config true index (level_of config content ∷ levels) digest tree ≡ (
            climb d config true (index + 1) levels (block_hash config (content ++ digest)) tree
            >>= λ (levels', overflow', tree').
                some (level_of config [] ∷ levels', overflow', tree'))
    unfolding climb
    climb-flush p full = rw (overflowing_append_fits laws config content digest fit) (
        rw (
          full,
          finalize_into_and_reset-level_of laws config (content ++ digest),
          append-block_new laws config [] (omega arith),
          not_zero index p,
        ))

  two_fit : d.output_size + d.output_size ≤ config.block_size
  two_fit =
      two_blocks fits.factor d.output_size config.block_size fits.factor_big fits.block_size_eq

  -- A first digest makes a first level.
  first_level :
      (written digest : List ℕ)
      → written ≡ []
      → length digest ≡ d.output_size
      → Eager config (seal [] digest) (written ++ digest)
  first_level written [] e len = absurd (omega (arith, fits.output_pos))
  first_level written (x ∷ xs) e len =
      Eager.level [] (x ∷ xs) 1 (rw e) (omega (arith, length-append written (x ∷ xs))) refl
        (omega arith) (omega (arith, two_fit)) tt (Eager.none_yet refl)

  module _ {written : List ℕ} (blocks : List (List ℕ)) (content digest : List ℕ) (digests : ℕ)
      (len : length digest ≡ d.output_size) (e : written ≡ concat blocks ++ content)
      (whole : length content ≡ digests * d.output_size)
      (all : AllLength config.block_size blocks) where
    stay-Eager :
        {levels : List (FixedSizeBlock d)}
        → leb d.output_size (config.block_size - length (content ++ digest)) ≡ true
        → length content + d.output_size ≤ config.block_size
        → Eager config levels (hashes_of config blocks)
        → Eager config (level_of config (content ++ digest) ∷ levels) (written ++ digest)
    stay-Eager r room rest =
        Eager.level blocks (content ++ digest) (suc digests)
          (ap (λ (t : List ℕ). t ++ digest) e ∙ append_assoc (concat blocks) content digest)
          (omega (arith, length-append written digest, fits.output_pos)) refl
          (omega (arith, length-append content digest))
          (omega (arith, length-append content digest, leb→le _ _ r)) all rest

    flush-Eager :
        {above : List (FixedSizeBlock d)}
        → leb d.output_size (config.block_size - length (content ++ digest)) ≡ false
        → length content + d.output_size ≤ config.block_size
        → Eager config above (hashes_of config blocks ++ block_hash config (content ++ digest))
        → Eager config (level_of config [] ∷ above) (written ++ digest)
    flush-Eager r room rest =
        Eager.level (blocks ++ (content ++ digest) ∷ []) [] 0
          (ap (λ (t : List ℕ). t ++ digest) e
            ∙ append_assoc (concat blocks) content digest
            ∙ sym (concat-snoc blocks (content ++ digest))
            ∙ sym (append-nil (concat (blocks ++ (content ++ digest) ∷ []))))
          (omega (arith, length-append written digest, fits.output_pos)) refl (omega arith)
          (omega arith)
          (AllLength-append config.block_size blocks ((content ++ digest) ∷ []) all
            (full_block, tt))
          (subst (Eager config _) (hashes_of-snoc blocks (content ++ digest)) rest)
      where
        full_block : length (content ++ digest) ≡ config.block_size
        full_block =
            length-append content digest
            ∙ ap (λ (t : ℕ). length content + t) len
            ∙ room_or_full digests (length content) whole room
                (omega (arith, length-append content digest, leb_false→lt _ _ r))

  -- A digest that is written into the levels from 1 up.
  pub climb-Eager :
      (index : ℕ) {levels : List (FixedSizeBlock d)} {written : List ℕ} (digest : List ℕ)
      (tree : MerkleTree)
      → 0 < index
      → length digest ≡ d.output_size
      → Eager config levels written
      → (levels' : List (FixedSizeBlock d)) × (overflow : List ℕ) × (climb d config true index
            levels digest tree
          ≡ some (levels', overflow, tree))
        × Eager config (seal levels' overflow) (written ++ digest)
        × (length overflow ≤ config.block_size)
  climb-Eager index {written = written} digest tree p len (Eager.none_yet e) =
      ([], digest, unfold climb in refl, first_level written digest e len, omega (arith, two_fit))
  climb-Eager index {levels = top ∷ levels} {written} digest tree p len
        (Eager.level blocks content digests e pos is whole room all rest) =
      elim (Bool-cases (leb d.output_size (config.block_size - length (content ++ digest)))) [
        | inl r ↦ (
          level_of config (content ++ digest) ∷ levels,
          [],
          start ∙ climb-stay index content digest levels tree fit r,
          stay-Eager blocks content digest digests len e whole all r room rest,
          omega arith,
        )
        | inr r ↦
            let (above, overflow, run, inv, small) =
              climb-Eager (index + 1) (block_hash config (content ++ digest)) tree (omega arith)
                (length-block_hash laws config (content ++ digest)) rest in
            (
              level_of config [] ∷ above,
              overflow,
              start ∙ climb-flush index content digest levels tree fit p r ∙ rw run,
              rw (seal-cons (level_of config []) above overflow)
                  (flush-Eager blocks content digest digests len e whole all r room inv),
              small,
            )
      ]
    where
      fit : length content + length digest ≤ config.block_size
      fit = omega arith

      start :
          climb d config true index (top ∷ levels) digest tree
          ≡ climb d config true index (level_of config content ∷ levels) digest tree
      start = ap (λ (t : FixedSizeBlock d). climb d config true index (t ∷ levels) digest tree) is
