-- ===== src/CryptpilotVerity/Metadata/RoundTrip.antt =====
-- What cryptpilot-verity/src/metadata/mod.rs writes is read back.
use Prim.Native.Nat.{Ordering, lt, eq, gt}
use Prim.Native.String.{String, compare}
use cryptpilot.Prelude.{
  ℕ, ◌%◌, ◌<◌, ◌≡◌, refl, sym, ap, ◌∙◌, List, [], ◌∷◌, ◌++◌, append-nil, append_assoc, ==_iff,
  length, map, concat, AllLength, length-concat, chunks, chunks-concat, chunks-nil,
}
use native.Mathlib.Nat.{mul-mod_left}
use cryptpilot.Prelude.Sort.{AllOf, sort_by, sort_by-AllOf}
use cryptpilot.VerityCore.Merkle.{level1_as_bytes, from_level1_hashes}
use cryptpilot.VerityFuse.FileInfo.{FileVerityInfo}
use cryptpilot.CryptpilotVerity.Answer.{fine}
use cryptpilot.CryptpilotVerity.Metadata.{
  Labels, insert_label, Formats, FormatLaws, fb_of_info, fb_of_label, metadata_of, copy_root_hash,
  exact_hashes, read_labels, read_file_info, read_file_infos, serialize_metadata,
  deserialize_metadata,
}

-- The hashes of an entry have the size of the hash function.
abbrev pub Sized : Formats → FileVerityInfo → Type 0
Sized t info =
    (length info.descriptor.root_hash ≡ t.hash.output_size)
    × AllLength t.hash.output_size info.merkle_tree.hashes

-- Every key comes after those of `before` and those that stand before it.
abbrev pub After : String → Labels → Type 0
After key [] = Unit
After key ((k, v) ∷ rest) = (compare key k ≡ Ordering.gt) × After key rest

abbrev pub Ascends : Labels → Labels → Type 0
Ascends before [] = Unit
Ascends before ((key, value) ∷ rest) = After key before × Ascends (before ++ (key, value) ∷ []) rest

insert_label-last :
    (key value : String) (labels : Labels)
    → After key labels
    → insert_label key value labels ≡ labels ++ (key, value) ∷ []
insert_label-last key value [] after = refl
insert_label-last key value ((k, v) ∷ rest) (greater, after) =
    ap
      (λ (o : Ordering). elim o as (λ _. Labels) [
        | lt ↦ (key, value) ∷ (k, v) ∷ rest
        | eq ↦ (k, value) ∷ rest
        | gt ↦ (k, v) ∷ insert_label key value rest
      ])
      greater
    ∙ ap (λ (l : Labels). (k, v) ∷ l) (insert_label-last key value rest after)

read_labels-map :
    (labels before : Labels)
    → Ascends before labels
    → read_labels (map fb_of_label labels) before ≡ fine (before ++ labels)
unfolding read_labels
read_labels-map [] before ascends = ap fine (sym (append-nil before))
read_labels-map ((key, value) ∷ rest) before (after, ascends) =
    ap (read_labels (map fb_of_label rest)) (insert_label-last key value before after)
    ∙ read_labels-map rest (before ++ (key, value) ∷ []) ascends
    ∙ ap fine (append_assoc before ((key, value) ∷ []) rest)

module _ (t : Formats) (some_output : 0 < t.hash.output_size) where
  copy_root_hash-sized :
      (bytes : List ℕ) → length bytes ≡ t.hash.output_size → copy_root_hash t bytes ≡ fine bytes
  copy_root_hash-sized bytes e = rw ((==_iff (length bytes) t.hash.output_size).1 e) refl

  exact_hashes-concat :
      (hashes : List (List ℕ))
      → AllLength t.hash.output_size hashes
      → exact_hashes t (concat hashes) ≡ fine hashes
  exact_hashes-concat hashes all =
      let multiple = length-concat t.hash.output_size hashes all in
      let whole : length (concat hashes) % t.hash.output_size ≡ 0 =
        ap (λ (n : ℕ). n % t.hash.output_size) multiple
        ∙ mul-mod_left (length hashes) t.hash.output_size in
      rw ((==_iff (length (concat hashes) % t.hash.output_size) 0).1 whole) (
        ap fine (
          ap (chunks t.hash.output_size) (sym (append-nil (concat hashes)))
          ∙ chunks-concat t.hash.output_size hashes [] some_output all
          ∙ ap (λ (l : List (List ℕ)). hashes ++ l) (chunks-nil t.hash.output_size)
          ∙ append-nil hashes))

  read_file_info-fb :
      (info : FileVerityInfo) → Sized t info → read_file_info t (fb_of_info info) ≡ fine info
  unfolding read_file_info level1_as_bytes from_level1_hashes
  read_file_info-fb info (root, all) =
      rw (copy_root_hash-sized info.descriptor.root_hash root)
        (rw (exact_hashes-concat info.merkle_tree.hashes all) refl)

  read_file_infos-map :
      (infos : List FileVerityInfo)
      → AllOf (Sized t) infos
      → read_file_infos t (map fb_of_info infos) ≡ fine infos
  unfolding read_file_infos
  read_file_infos-map [] all = refl
  read_file_infos-map (info ∷ rest) (sized, all) =
      rw (read_file_info-fb info sized) (rw (read_file_infos-map rest all) refl)

  -- Metadata that were written are read back: the entries in the order of their paths, and the labels,
  -- if the hashes have the size of the hash function and the labels are a map, whose keys ascend.
  pub deserialize-serialize :
      (laws : FormatLaws t) (infos : List FileVerityInfo) (labels : Labels)
      → AllOf (Sized t) infos
      → Ascends [] labels
      → deserialize_metadata t (serialize_metadata t infos labels)
        ≡ fine (record {
          file_infos = sort_by (λ (info : FileVerityInfo). info.path) infos;
          labels = labels;
        })
  unfolding deserialize_metadata serialize_metadata
  deserialize-serialize laws infos labels all ascends =
      rw (laws.decode-encode (metadata_of infos labels)) (
        rw
          (read_file_infos-map (sort_by (λ (info : FileVerityInfo). info.path) infos)
            (sort_by-AllOf (λ (info : FileVerityInfo). info.path) (Sized t) infos all))
          (rw (read_labels-map labels [] ascends) refl))
