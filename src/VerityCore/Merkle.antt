-- ===== src/VerityCore/Merkle.antt =====
-- The type `MerkleTree` of verity-core/src/tree.rs and its accessors.
use cryptpilot.Prelude.{List, ℕ, ◌++◌, ◌∷◌, [], concat, ◌≡◌, refl}

pub record MerkleTree : Type 0 where
  pub hashes : List (List ℕ)

-- `Default`.
abbrev pub empty_tree : MerkleTree
empty_tree = record { hashes = [] }

unfoldable pub append_level_1_hash : MerkleTree → List ℕ → MerkleTree
append_level_1_hash t hash = record { hashes = t.hashes ++ hash ∷ [] }

unfoldable pub level1_as_bytes : MerkleTree → List ℕ
level1_as_bytes t = concat t.hashes

unfoldable pub from_level1_hashes : List (List ℕ) → MerkleTree
from_level1_hashes hashes = record { hashes = hashes }

-- A recorded hash comes last.
pub hashes-append_level_1_hash :
    (t : MerkleTree) (hash : List ℕ) → (append_level_1_hash t hash).hashes ≡ t.hashes ++ hash ∷ []
unfolding append_level_1_hash
hashes-append_level_1_hash t hash = refl
