-- ===== src/CryptpilotVerity/Tests.antt =====
-- The theorems of cryptpilot-verity at concrete inputs, with the hash of the tests of verity-core and
-- a format that remembers one file.
use Prim.Native.String.{String}
use text.Mathlib.Text.{◌==◌ as text_eq}
use cryptpilot.Prelude.{
  ℕ, ◌≡◌, ◌↔◌, refl, Option, some, none, true, false, List, [], ◌∷◌, length, if◌then◌else◌, arith,
}
use cryptpilot.VerityCore.Config.{default_block_size}
use cryptpilot.VerityCore.Block.{FsVerityConfig, config_new}
use cryptpilot.VerityCore.Tests.{toy, toy_laws, run, pieces_descriptor, pieces_tree}
use cryptpilot.VerityFuse.FileInfo.{FileVerityInfo}
use cryptpilot.CryptpilotVerity.Answer.{fine}
use cryptpilot.CryptpilotVerity.Metadata.{
  FbMetadata, Formats, FormatLaws, MetadataInfo, serialize_metadata, deserialize_metadata,
}
use cryptpilot.Prelude.Sort.{AllOf, sort_by}
use cryptpilot.CryptpilotVerity.Metadata.RoundTrip.{deserialize-serialize}
use cryptpilot.CryptpilotVerity.Commands.{check_metadata, verify, format}
use cryptpilot.CryptpilotVerity.Commands.Check.{
  Checked, HasContent, check_metadata-Checked, verify-Checked,
}
use cryptpilot.CryptpilotVerity.Commands.Format.{all_read, verify-format}

abbrev toy_formats : Formats
toy_formats = record {
  hash = toy;
  Bytes = FbMetadata;
  encode = λ m. m;
  decode = λ m. some m;
  to_canon_json = λ entries. some (length entries ∷ []);
  hex = λ hash. "digest";
}

abbrev toy_format_laws : FormatLaws toy_formats
toy_format_laws = record {
  to_canon_json-returns = λ entries. (length entries ∷ [], refl);
  decode-encode = λ m. refl;
}

abbrev file_config : FsVerityConfig toy
file_config = record { block_size = 4096; salt = []; salted_digest = [] }

file_config_made : config_new toy default_block_size [] ≡ some file_config
unfolding run
file_config_made = refl

abbrev some_files : List (String × List ℕ)
some_files = ("b", 1 ∷ 2 ∷ 3 ∷ []) ∷ ("a", []) ∷ []

abbrev open_some : String → Option (List ℕ)
open_some path = if text_eq path "b" then some (1 ∷ 2 ∷ 3 ∷ []) else some []

verify-format_example :
    (bytes : FbMetadata) × (root_hash : String) × (format toy_formats true true
        (all_read some_files)
        (("env", "prod") ∷ [])
        true
      ≡ fine (bytes, root_hash))
    × (verify toy_formats (some bytes) root_hash false open_some ≡ fine tt)
verify-format_example =
    verify-format toy_formats toy_laws toy_format_laws file_config_made open_some true true
      some_files (("env", "prod") ∷ []) refl ((omega arith, refl), ((omega arith, refl), tt))
      (tt, tt)

abbrev some_infos : List FileVerityInfo
some_infos =
    record {
      path = "b";
      descriptor = pieces_descriptor;
      merkle_tree = pieces_tree;
      descriptor_hash = "digest";
    }
    ∷ record {
      path = "a";
      descriptor = pieces_descriptor;
      merkle_tree = pieces_tree;
      descriptor_hash = "digest";
    }
    ∷ []

deserialize-serialize_example :
    deserialize_metadata toy_formats
      (serialize_metadata toy_formats some_infos (("env", "prod") ∷ []))
    ≡ fine (record {
      file_infos = sort_by (λ (info : FileVerityInfo). info.path) some_infos;
      labels = ("env", "prod") ∷ [];
    })
deserialize-serialize_example =
    deserialize-serialize toy_formats (omega arith) toy_format_laws some_infos
      (("env", "prod") ∷ [])
      ((refl, (refl, (refl, (refl, tt)))), ((refl, (refl, (refl, (refl, tt)))), tt)) (tt, tt)

abbrev some_bytes : FbMetadata
some_bytes = record { version = 1; files = none; labels = none }

check_metadata-Checked_example :
    (check_metadata toy_formats some_bytes "digest"
      ≡ fine (record { file_infos = some_infos; labels = [] }))
    ↔ Checked toy_formats some_bytes "digest" (record { file_infos = some_infos; labels = [] })
check_metadata-Checked_example =
    check_metadata-Checked toy_formats some_bytes "digest"
      (record { file_infos = some_infos; labels = [] })

verify-Checked_example :
    (verify toy_formats (some some_bytes) "digest" false open_some ≡ fine tt) ↔ (
      (info : MetadataInfo) × Checked toy_formats some_bytes "digest" info
      × AllOf (HasContent toy_formats open_some) info.file_infos)
verify-Checked_example = verify-Checked toy_formats open_some some_bytes "digest"
