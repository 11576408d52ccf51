-- ===== src/CryptpilotVerity/Metadata.antt =====
-- The metadata of cryptpilot-verity/src/metadata/mod.rs: written and read with flatbuffers, which is
-- a parameter, as are the canonical JSON and the text of a hash.
pub mod RoundTrip
use Prim.Native.Nat.{Ordering, lt, eq, gt}
use Prim.Native.String.{String, compare}
use cryptpilot.Prelude.{
  ℕ, zero, suc, ◌+◌, ◌*◌, ◌%◌, ◌≡◌, Bool, true, false, Option, none, some, List, [], ◌∷◌, ◌==◌,
  if◌then◌else◌, length, map, chunks,
}
use cryptpilot.Prelude.Sort.{sort_by}
use cryptpilot.VerityCore.Config.{default_block_size}
use cryptpilot.VerityCore.Hash.{InnerHash}
use cryptpilot.VerityCore.Merkle.{MerkleTree, level1_as_bytes, from_level1_hashes}
use cryptpilot.VerityCore.Descriptor.{FsVerityDescriptor}
use cryptpilot.VerityCore.Digest.{measure}
use cryptpilot.VerityFuse.FileInfo.{FileVerityInfo}
use cryptpilot.CryptpilotVerity.Answer.{
  Problem, Answer, fine, problem, panic, ◌>>=◌, ◌>>◌, require, or_panic,
}

-- The tables of the schema, as the generated code builds and reads them.
pub record FbDescriptor : Type 0 where
  pub version : ℕ
  pub hash_algorithm : ℕ
  pub log_blocksize : ℕ
  pub data_size : ℕ
  pub root_hash : Option (List ℕ)
  pub salt : Option (List ℕ)

pub record FbFileInfo : Type 0 where
  pub path : Option String
  pub descriptor : Option FbDescriptor
  pub merkle_tree_level1 : Option (List ℕ)
  pub descriptor_hash : Option String

pub record FbKeyValue : Type 0 where
  pub key : Option String
  pub value : Option String

pub record FbMetadata : Type 0 where
  pub version : ℕ
  pub files : Option (List FbFileInfo)
  pub labels : Option (List FbKeyValue)

-- A `BTreeMap` of strings, in the order of its keys.
abbrev pub Labels : Type 0
Labels = List (String × String)

abbrev pub insert_label : String → String → Labels → Labels
insert_label key value [] = (key, value) ∷ []
insert_label key value ((k, v) ∷ rest) =
    let later = insert_label key value rest in
    elim (compare key k) [
      | lt ↦ (key, value) ∷ (k, v) ∷ rest
      | eq ↦ (k, value) ∷ rest
      | gt ↦ (k, v) ∷ later
    ]

pub record MetadataInfo : Type 0 where
  pub file_infos : List FileVerityInfo
  pub labels : Labels

-- `FileHashJsonEntry`.
pub record FileHashJsonEntry : Type 0 where
  pub descriptor_hash : String
  pub path : String

-- The crates flatbuffers, canon_json and hex, and the hash SHA-256.
pub record Formats : Type 1 where
  pub hash : InnerHash
  -- The bytes of a metadata file.
  pub Bytes : Type 0
  pub encode : FbMetadata → Bytes
  pub decode : Bytes → Option FbMetadata
  pub to_canon_json : List FileHashJsonEntry → Option (List ℕ)
  pub hex : List ℕ → String

-- What is finished by the builder is read back as it was, and texts have a canonical JSON.
pub record FormatLaws (t : Formats) : Type 0 where
  pub to_canon_json-returns :
      (entries : List FileHashJsonEntry) → (json : List ℕ) × (t.to_canon_json entries ≡ some json)
  pub decode-encode : (m : FbMetadata) → t.decode (t.encode m) ≡ some m

-- One table for one file.
abbrev pub fb_of_info : FileVerityInfo → FbFileInfo
fb_of_info info = record {
  path = some info.path;
  descriptor = some (record {
    version = info.descriptor.version;
    hash_algorithm = info.descriptor.hash_algorithm;
    log_blocksize = info.descriptor.log_blocksize;
    data_size = info.descriptor.data_size;
    root_hash = some info.descriptor.root_hash;
    salt = some info.descriptor.salt;
  });
  merkle_tree_level1 = some (level1_as_bytes info.merkle_tree);
  descriptor_hash = some info.descriptor_hash;
}

abbrev pub fb_of_label : String × String → FbKeyValue
fb_of_label (key, value) = record { key = some key; value = some value }

abbrev pub metadata_of : List FileVerityInfo → Labels → FbMetadata
metadata_of file_infos labels = record {
  version = 1;
  files = some (map fb_of_info (sort_by (λ (info : FileVerityInfo). info.path) file_infos));
  labels = some (map fb_of_label labels);
}

-- `unwrap_or_default`.
abbrev pub or_empty : Option (List ℕ) → List ℕ
or_empty none = []
or_empty (some bytes) = bytes

abbrev pub entries_or_empty {ℓ} : {A : Type ℓ} → Option (List A) → List A
entries_or_empty none = []
entries_or_empty (some xs) = xs

-- The labels of the tables, into the map so far.
unfoldable pub read_labels : List FbKeyValue → Labels → Answer Labels
read_labels [] labels = fine labels
read_labels (kv ∷ rest) labels = require kv.key Problem.missing_key >>= λ key.
    require kv.value Problem.missing_value >>= λ value.
    read_labels rest (insert_label key value labels)

-- The path and the hash of a file.
unfoldable pub json_entry : FbFileInfo → Answer FileHashJsonEntry
json_entry file_info = require file_info.path Problem.missing_path >>= λ path.
    require file_info.descriptor_hash Problem.missing_descriptor_hash >>= λ descriptor_hash.
    fine (record { descriptor_hash = descriptor_hash; path = path })

unfoldable pub json_entries : List FbFileInfo → Answer (List FileHashJsonEntry)
json_entries [] = fine []
json_entries (file_info ∷ rest) =
    json_entry file_info >>= λ entry. json_entries rest >>= λ entries. fine (entry ∷ entries)

module _ (t : Formats) where
  -- `none` is a panic of the digest.
  unfoldable pub calculate_fsverity_hash : List ℕ → Option (FsVerityDescriptor × MerkleTree)
  calculate_fsverity_hash content = measure t.hash [] default_block_size (content ∷ [])

  unfoldable pub serialize_metadata : List FileVerityInfo → Labels → t.Bytes
  serialize_metadata file_infos labels = t.encode (metadata_of file_infos labels)

  -- `copy_from_slice` panics if the lengths differ.
  abbrev pub copy_root_hash : List ℕ → Answer (List ℕ)
  copy_root_hash bytes = if length bytes == t.hash.output_size then fine bytes else panic

  -- `chunks_exact`, whose remainder must be empty.
  abbrev pub exact_hashes : List ℕ → Answer (List (List ℕ))
  exact_hashes bytes =
      if length bytes % t.hash.output_size == 0
      then fine (chunks t.hash.output_size bytes)
      else problem Problem.broken_merkle_tree

  -- One round of the loop over the files of `deserialize_metadata`.
  unfoldable pub read_file_info : FbFileInfo → Answer FileVerityInfo
  read_file_info file_info = do
    path ← require file_info.path Problem.missing_path
    descriptor_hash ← require file_info.descriptor_hash Problem.missing_descriptor_hash
    fb_descriptor ← require file_info.descriptor Problem.missing_descriptor
    root_hash_bytes ← require fb_descriptor.root_hash Problem.missing_root_hash
    root_hash ← copy_root_hash root_hash_bytes
    level1 ← exact_hashes (or_empty file_info.merkle_tree_level1)
    fine (record {
      path = path;
      descriptor = record {
        version = fb_descriptor.version;
        hash_algorithm = fb_descriptor.hash_algorithm;
        log_blocksize = fb_descriptor.log_blocksize;
        data_size = fb_descriptor.data_size;
        root_hash = root_hash;
        salt = or_empty fb_descriptor.salt;
      };
      merkle_tree = from_level1_hashes level1;
      descriptor_hash = descriptor_hash;
    })

  unfoldable pub read_file_infos : List FbFileInfo → Answer (List FileVerityInfo)
  read_file_infos [] = fine []
  read_file_infos (file_info ∷ rest) =
      read_file_info file_info >>= λ info. read_file_infos rest >>= λ infos. fine (info ∷ infos)

  unfoldable pub deserialize_metadata : t.Bytes → Answer MetadataInfo
  deserialize_metadata bytes = require (t.decode bytes) Problem.parse_failed >>= λ metadata.
      if metadata.version == 1
      then (read_file_infos (entries_or_empty metadata.files) >>= λ infos.
          read_labels (entries_or_empty metadata.labels) [] >>= λ labels.
          fine (record { file_infos = infos; labels = labels }))
      else problem Problem.unsupported_version

  unfoldable pub calculate_metadata_hash : t.Bytes → Answer String
  calculate_metadata_hash bytes = do
    metadata ← require (t.decode bytes) Problem.parse_failed
    entries ← json_entries (entries_or_empty metadata.files)
    json ←
        require (t.to_canon_json (sort_by (λ (e : FileHashJsonEntry). e.path) entries))
          Problem.json_failed
    fine (t.hex (t.hash.finalize (t.hash.update t.hash.new_state json)))
