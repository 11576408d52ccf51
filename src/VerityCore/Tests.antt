-- ===== src/VerityCore/Tests.antt =====
-- Runs of the model of verity-core with a small hash, and the theorems at concrete inputs.
use cryptpilot.Prelude.{
  ℕ, ◌+◌, ◌*◌, ◌%◌, ◌≤◌, ◌≡◌, ◌⊎◌, refl, some, true, false, List, [], ◌∷◌, ◌++◌, length, concat,
  map, replicate, append-nil, append_assoc, chunks, get_elem?, is_power_of_two, trailing_zeros,
  arith,
}
use cryptpilot.VerityCore.Config.{InnerHashAlgorithm, algorithm_to_u8}
use cryptpilot.VerityCore.Hash.Salt.{Fills}
use cryptpilot.VerityCore.Hash.{InnerHash, HashLaws, update_zeroes, update_padded, salt_to_digest}
use cryptpilot.VerityCore.Block.{
  FsVerityConfig, config_new, block_new, append, fill_to_end, overflowing_append, finalize_into,
  finalize_into_and_reset,
}
use cryptpilot.VerityCore.Block.Content.{block_hash, Fits, config_new-Fits}
use cryptpilot.VerityCore.Merkle.{MerkleTree, empty_tree, append_level_1_hash}
use cryptpilot.VerityCore.Descriptor.{FsVerityDescriptor, to_descriptor_hash}
use cryptpilot.VerityCore.Digest.{
  climb, update_chunk, update_loop, update, update_all, new_with_salt_and_block_size, finalize_loop,
  FsVerityDigest, finalize_into_fs_verity_stuffs, measure,
}
use cryptpilot.VerityCore.Digest.Invariant.{IsRoot, Streams}
use cryptpilot.VerityCore.Digest.Tracks.{Tracks, update-Tracks}
use cryptpilot.VerityCore.Hash.Zeroes.{update_padded-replicate}
use cryptpilot.VerityCore.Descriptor.Layout.{layout, to_descriptor_hash-layout}
use cryptpilot.VerityCore.Digest.Correct.{
  descriptor_of, measure-IsRoot, Counts_of_capacity, config-Fits,
}
use cryptpilot.VerityCore.Tree.{rebuild_levels, rebuild_root_hash, verify_data_block}
use cryptpilot.VerityCore.Tree.Rebuild.{rebuild-measure}
use cryptpilot.VerityCore.Tree.Verify.{
  Collision, padded, Accepts, verify_data_block-Accepts, verify-measure, verify-measure_tampered,
}

-- All functions that a run computes with.
unfoldable pub run : Unit {0}
unfolding update_zeroes update_padded salt_to_digest config_new block_new append fill_to_end
    overflowing_append finalize_into finalize_into_and_reset append_level_1_hash to_descriptor_hash
    climb update_chunk update_loop update update_all new_with_salt_and_block_size finalize_loop
    finalize_into_fs_verity_stuffs measure rebuild_levels rebuild_root_hash verify_data_block
    is_power_of_two trailing_zeros chunks algorithm_to_u8
run = tt

weigh : ℕ → List ℕ → ℕ
weigh acc [] = acc
weigh acc (x ∷ xs) = weigh ((acc * 31 + x + 1) % 65_536) xs

pub digest_of : List ℕ → List ℕ
unfolding weigh
digest_of s = (weigh 7 s % 256) ∷ (length s % 256) ∷ []

-- A hash of two bytes: the state holds all bytes fed.
abbrev pub toy : InnerHash
toy = record {
  State = List ℕ;
  new_state = [];
  update = λ s xs. s ++ xs;
  finalize = digest_of;
  output_size = 2;
  input_block_size = 4;
  inner_hash_algorithm = InnerHashAlgorithm.sha256;
}

pub length-digest_of : (s : List ℕ) → length (digest_of s) ≡ 2
unfolding digest_of
length-digest_of s = refl

abbrev pub toy_laws : HashLaws toy
toy_laws = record {
  update-nil = append-nil;
  update-append = append_assoc;
  length-finalize = length-digest_of;
  output_log = 1;
  output_size_pow = refl;
}

abbrev toy_config : FsVerityConfig toy
toy_config = record { block_size = 4; salt = []; salted_digest = [] }

pub toy_made : config_new toy 4 [] ≡ some toy_config
unfolding run
toy_made = refl

abbrev salted_config : FsVerityConfig toy
salted_config = record { block_size = 4; salt = 9 ∷ []; salted_digest = 9 ∷ 0 ∷ 0 ∷ 0 ∷ [] }

salted_made : config_new toy 4 (9 ∷ []) ≡ some salted_config
unfolding run
salted_made = refl

-- Eleven bytes, in pieces that do not fit the blocks of four.
abbrev pub pieces : List (List ℕ)
pieces = (1 ∷ 2 ∷ 3 ∷ []) ∷ (4 ∷ 5 ∷ 6 ∷ 7 ∷ 8 ∷ 9 ∷ []) ∷ [] ∷ (10 ∷ 11 ∷ []) ∷ []

abbrev pub pieces_descriptor : FsVerityDescriptor
pieces_descriptor = record {
  version = 1;
  hash_algorithm = 1;
  log_blocksize = 2;
  data_size = 11;
  root_hash = 132 ∷ 4 ∷ [];
  salt = [];
}

abbrev pub pieces_tree : MerkleTree
pieces_tree = record { hashes = (9 ∷ 4 ∷ []) ∷ (9 ∷ 4 ∷ []) ∷ (253 ∷ 4 ∷ []) ∷ [] }

pub measured : measure toy [] 4 pieces ≡ some (pieces_descriptor, pieces_tree)
unfolding run digest_of weigh
measured = refl

measure-IsRoot_example :
    (root : List ℕ) × (tree : MerkleTree) × (measure toy (9 ∷ []) 4 pieces
      ≡ some (descriptor_of toy (9 ∷ []) 4 11 root, tree))
    × IsRoot salted_config (concat pieces) root
    × (tree.hashes ≡ map (block_hash salted_config) (chunks 4 (concat pieces)))
measure-IsRoot_example = measure-IsRoot toy_laws 4 (9 ∷ []) salted_made pieces (omega arith)

rebuild-measure_example : rebuild_root_hash toy pieces_tree [] 4 ≡ some (132 ∷ 4 ∷ [])
rebuild-measure_example = rebuild-measure toy_laws 4 [] toy_made pieces (omega arith) measured

verify_data_block-Accepts_example :
    ((verify_data_block toy pieces_tree 2 4 (9 ∷ 10 ∷ 11 ∷ []) ≡ some true)
      × Accepts toy pieces_tree 2 4 (9 ∷ 10 ∷ 11 ∷ []))
    ⊎ ((verify_data_block toy pieces_tree 2 4 (9 ∷ 10 ∷ 11 ∷ []) ≡ some false)
        × (¬ Accepts toy pieces_tree 2 4 (9 ∷ 10 ∷ 11 ∷ [])))
verify_data_block-Accepts_example =
    verify_data_block-Accepts toy_laws pieces_tree 2 4 (9 ∷ 10 ∷ 11 ∷ [])

third_block : get_elem? (chunks 4 (concat pieces)) 2 ≡ some (9 ∷ 10 ∷ 11 ∷ [])
unfolding run
third_block = refl

verify-measure_example : verify_data_block toy pieces_tree 2 4 (9 ∷ 10 ∷ 11 ∷ []) ≡ some true
verify-measure_example =
    verify-measure toy_laws 4 toy_made pieces (omega arith) measured 2 third_block

zero_more : verify_data_block toy pieces_tree 2 4 (9 ∷ 10 ∷ 11 ∷ 0 ∷ []) ≡ some true
unfolding run digest_of weigh
zero_more = refl

verify-measure_tampered_example :
    (block : List ℕ) × (get_elem? (chunks 4 (concat pieces)) 2 ≡ some block)
    × (4 ≤ 4)
    × ((padded 4 (9 ∷ 10 ∷ 11 ∷ 0 ∷ []) ≡ padded 4 block)
        ⊎ Collision toy (padded 4 (9 ∷ 10 ∷ 11 ∷ 0 ∷ [])) (padded 4 block))
verify-measure_tampered_example =
    verify-measure_tampered toy_laws 4 toy_made pieces (omega arith) measured 2
      (9 ∷ 10 ∷ 11 ∷ 0 ∷ []) zero_more

update_padded-replicate_example :
    update_padded toy (7 ∷ []) (1 ∷ 2 ∷ []) 200 ≡ some (7 ∷ 1 ∷ 2 ∷ replicate 198 0)
update_padded-replicate_example =
    update_padded-replicate toy_laws (7 ∷ []) (1 ∷ 2 ∷ []) 200 (omega arith)

config_new-Fits_example : Fits toy salted_config
config_new-Fits_example = config_new-Fits toy_laws salted_config 4 (9 ∷ []) salted_made

abbrev nothing_written : FsVerityDigest toy
nothing_written = record { config = toy_config; levels = []; merkle_tree = empty_tree }

update-Tracks_example :
    (self' : FsVerityDigest toy) × (update toy nothing_written (1 ∷ 2 ∷ 3 ∷ 4 ∷ 5 ∷ [])
      ≡ some self')
    × Tracks toy toy_config self' (1 ∷ 2 ∷ 3 ∷ 4 ∷ 5 ∷ [])
update-Tracks_example =
    update-Tracks toy_laws toy_config (config-Fits toy_laws 4 [] toy_made) nothing_written []
      (1 ∷ 2 ∷ 3 ∷ 4 ∷ 5 ∷ []) (record { same_config = refl; streams = Streams.empty refl refl })
      (Counts_of_capacity toy_laws 4 [] toy_made 5 (omega arith))

abbrev salted_descriptor : FsVerityDescriptor
salted_descriptor = record pieces_descriptor { salt = 9 ∷ [] }

to_descriptor_hash-layout_example :
    (length (layout salted_descriptor) ≡ 256)
    × (zeroes : ℕ) × Fills 4 1 zeroes
    × (to_descriptor_hash toy salted_descriptor
        ≡ some (digest_of ((9 ∷ replicate zeroes 0) ++ layout salted_descriptor)))
to_descriptor_hash-layout_example =
    to_descriptor_hash-layout toy_laws salted_descriptor (omega arith) (omega arith) (omega arith)
