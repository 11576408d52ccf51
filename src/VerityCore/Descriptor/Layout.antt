-- ===== src/VerityCore/Descriptor/Layout.antt =====
-- `to_descriptor_hash` of verity-core/src/descriptor.rs against the layout of `struct
-- fsverity_descriptor` in the documentation of the Linux kernel.
use cryptpilot.Prelude.{
  ℕ, suc, ◌-◌, ◌/◌, ◌%◌, ◌≤◌, ◌≡◌, refl, ap, some, List, [], ◌∷◌, ◌++◌, length, replicate,
  length-append, length-replicate, append_assoc, arith, ◌*◌, ◌∙◌, ◌<◌,
}
use native.Mathlib.Nat.{div-div-eq-div-mul}
use cryptpilot.VerityCore.Hash.{InnerHash, HashLaws, salt_to_digest}
use cryptpilot.VerityCore.Hash.Salt.{Fills, salt_to_digest-Fills}
use cryptpilot.VerityCore.Hash.Zeroes.{update_padded-replicate, update_zeroes-replicate}
use cryptpilot.VerityCore.Descriptor.{FsVerityDescriptor, to_descriptor_hash, to_le_bytes}

-- A field of `n` bytes, filled up with zero bytes.
abbrev field_of : ℕ → List ℕ → List ℕ
field_of n bytes = bytes ++ replicate (n - length bytes) 0

-- The eight bytes of a word of 64 bits, the least significant one first.
abbrev word : ℕ → List ℕ
word x =
    (x % 256)
    ∷ (x / 256 % 256)
    ∷ (x / 65536 % 256)
    ∷ (x / 16777216 % 256)
    ∷ (x / 4294967296 % 256)
    ∷ (x / 1099511627776 % 256)
    ∷ (x / 281474976710656 % 256)
    ∷ (x / 72057594037927936 % 256)
    ∷ []

-- The structure: four single bytes, a reserved word, the size of the file, the root hash, the salt
-- and reserved bytes.
unfoldable pub layout : FsVerityDescriptor → List ℕ
layout self =
    (self.version ∷ self.hash_algorithm ∷ self.log_blocksize ∷ (length self.salt % 256) ∷ [])
    ++ (replicate 4 0
        ++ (word self.data_size
            ++ (field_of 64 self.root_hash ++ (field_of 32 self.salt ++ replicate 144 0))))

-- One more division by 256.
shifted : (x a b : ℕ) → a * 256 ≡ b → x / a / 256 ≡ x / b
shifted x a b e = div-div-eq-div-mul x a 256 ∙ ap (λ (t : ℕ). x / t) e

to_le_bytes-step :
    (n x y : ℕ) {rest : List ℕ}
    → x / 256 ≡ y
    → to_le_bytes n y ≡ rest
    → to_le_bytes (suc n) x ≡ x % 256 ∷ rest
unfolding to_le_bytes
to_le_bytes-step n x y e h = ap (λ (t : ℕ). x % 256 ∷ to_le_bytes n t) e ∙ ap (◌∷◌ (x % 256)) h

to_le_bytes-word : (x : ℕ) → to_le_bytes 8 x ≡ word x
unfolding to_le_bytes
to_le_bytes-word x = to_le_bytes-step 7 x (x / 256) refl (
    to_le_bytes-step 6 (x / 256) (x / 65536) (shifted x 256 65536 refl) (
      to_le_bytes-step 5 (x / 65536) (x / 16777216) (shifted x 65536 16777216 refl) (
        to_le_bytes-step 4 (x / 16777216) (x / 4294967296) (shifted x 16777216 4294967296 refl) (
          to_le_bytes-step 3 (x / 4294967296) (x / 1099511627776)
            (shifted x 4294967296 1099511627776 refl)
            (to_le_bytes-step 2 (x / 1099511627776) (x / 281474976710656)
              (shifted x 1099511627776 281474976710656 refl)
              (to_le_bytes-step 1 (x / 281474976710656) (x / 72057594037927936)
                (shifted x 281474976710656 72057594037927936 refl) refl))))))

length-field_of : (n : ℕ) (bytes : List ℕ) → length bytes ≤ n → length (field_of n bytes) ≡ n
length-field_of n bytes h = omega (
  arith,
  length-append bytes (replicate (n - length bytes) 0),
  length-replicate {A = ℕ} (n - length bytes) 0,
)

-- The structure has 256 bytes.
pub length-layout :
    (self : FsVerityDescriptor)
    → length self.root_hash ≤ 64
    → length self.salt ≤ 32
    → length (layout self) ≡ 256
unfolding layout
length-layout self fit_root fit_salt = omega (
  arith,
  length-append (field_of 64 self.root_hash) (field_of 32 self.salt ++ replicate 144 0),
  length-field_of 64 self.root_hash fit_root,
  length-append (field_of 32 self.salt) (replicate 144 0),
  length-field_of 32 self.salt fit_salt,
)

module _ {d : InnerHash} (laws : HashLaws d) where
  -- The hash of a salted state fed with the structure.
  pub to_descriptor_hash_lem :
      (self : FsVerityDescriptor) {s : d.State}
      → salt_to_digest d self.salt ≡ some s
      → length self.root_hash ≤ 64
      → length self.salt ≤ 32
      → (to_descriptor_hash d self ≡ some (d.finalize (d.update s (layout self))))
        × (length (layout self) ≡ 256)
  to_descriptor_hash_lem self {s} salted fit_root fit_salt =
      (computed, length-layout self fit_root fit_salt)
    where
      computed : to_descriptor_hash d self ≡ some (d.finalize (d.update s (layout self)))
      computed =
          unfold to_descriptor_hash layout in
          rw (salted, to_le_bytes-word self.data_size)
            (rw (update_padded-replicate laws _ self.root_hash 64 fit_root) (
              rw (update_padded-replicate laws _ self.salt 32 fit_salt)
                (simp (update_zeroes-replicate laws, laws.update-append, append_assoc))))

  -- For a hash with blocks that are not empty, and a root hash and a salt that fit into their fields,
  -- the hash of the descriptor is computed without a panic. It is the hash of the salt, of as few zero
  -- bytes as fill whole blocks of the hash, and of the structure, which has 256 bytes.
  pub to_descriptor_hash-layout :
      (self : FsVerityDescriptor)
      → 0 < d.input_block_size
      → length self.root_hash ≤ 64
      → length self.salt ≤ 32
      → (length (layout self) ≡ 256)
        × (zeroes : ℕ) × Fills d.input_block_size (length self.salt) zeroes
        × (to_descriptor_hash d self
            ≡ some (
                d.finalize
                  (d.update d.new_state ((self.salt ++ replicate zeroes 0) ++ layout self))))
  to_descriptor_hash-layout self some_bytes fit_root fit_salt =
      let (zeroes, fills, salted) = salt_to_digest-Fills laws some_bytes self.salt in
      (
        length-layout self fit_root fit_salt,
        zeroes,
        fills,
        (to_descriptor_hash_lem self salted fit_root fit_salt).0
            ∙ ap (λ (s : d.State). some (d.finalize s))
                (laws.update-append d.new_state (self.salt ++ replicate zeroes 0) (layout self)),
      )
