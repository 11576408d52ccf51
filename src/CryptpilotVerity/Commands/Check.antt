-- ===== src/CryptpilotVerity/Commands/Check.antt =====
-- What `verify` and `open` of cryptpilot-verity/src/cmd have checked when they go on.
use Prim.Native.String.{String}
use text.Mathlib.Text.{◌==◌ as text_eq}
use text.Mathlib.TextEquality.{eq_iff}
use cryptpilot.Prelude.{
  ℕ, ◌≡◌, ◌↔◌, refl, ap, ◌∙◌, subst, Bool, true, false, Option, none, some, List, [], ◌∷◌,
}
use cryptpilot.VerityFuse.FileInfo.{FileVerityInfo, SelfResult, valid, invalid, verify_self}
use cryptpilot.CryptpilotVerity.Answer.{Problem, Answer, fine, problem, panic, ◌>>=◌, require}
use cryptpilot.CryptpilotVerity.Metadata.{
  Formats, MetadataInfo, deserialize_metadata, calculate_metadata_hash,
}
use cryptpilot.Prelude.Sort.{AllOf}
use cryptpilot.CryptpilotVerity.Commands.{
  ensure, self_answer, check_entries, check_metadata, content_hash, check_contents, verify,
}

fine_eq : {A : Type 0} {a b : A} → Answer.fine a ≡ Answer.fine b → a ≡ b
fine_eq {a = a} e = ap (λ r. elim r [ fine x ↦ x | problem p ↦ a | panic ↦ a ]) e

-- A chain that is fine is fine in its first part.
bind_fine :
    {A B : Type 0} (m : Answer A) (f : A → Answer B) {b : B}
    → (m >>= f) ≡ fine b
    → (a : A) × (m ≡ fine a) × (f a ≡ fine b)
bind_fine (fine a) f h = (a, refl, h)
bind_fine (problem p) f h = cc h
bind_fine panic f h = cc h

ensure_fine : (b : Bool) (p : Problem) {u : Unit {0}} → ensure b p ≡ fine u → b ≡ true
ensure_fine true p h = refl
ensure_fine false p h = cc h

module _ (t : Formats) where
  -- The entry passes its self check.
  abbrev pub PassesSelf : FileVerityInfo → Type 0
  PassesSelf info = verify_self t.hash t.hex info ≡ some SelfResult.valid

  self_fine :
      (r : Option SelfResult) {u : Unit {0}} → self_answer t r ≡ fine u → r ≡ some SelfResult.valid
  self_fine none h = cc h
  self_fine (some valid) h = refl
  self_fine (some (invalid e)) h = cc h

  check_entries_all :
      (infos : List FileVerityInfo) {u : Unit {0}}
      → check_entries t infos ≡ fine u
      → AllOf PassesSelf infos
  unfolding check_entries
  check_entries_all [] h = tt
  check_entries_all (info ∷ rest) h =
      let (v, first, later) =
        bind_fine (self_answer t (verify_self t.hash t.hex info)) (λ _. check_entries t rest) h in
      (self_fine (verify_self t.hash t.hex info) first, check_entries_all rest later)

  check_entries_fine :
      (infos : List FileVerityInfo) → AllOf PassesSelf infos → check_entries t infos ≡ fine tt
  unfolding check_entries
  check_entries_fine [] all = refl
  check_entries_fine (info ∷ rest) (passes, all) = rw passes (check_entries_fine rest all)

  -- What the metadata must be for `check_metadata` to give them.
  abbrev pub Checked : t.Bytes → String → MetadataInfo → Type 0
  Checked bytes expected info =
      (calculate_metadata_hash t bytes ≡ fine expected)
      × (deserialize_metadata t bytes ≡ fine info)
      × AllOf PassesSelf info.file_infos

  Checked-of_fine :
      (bytes : t.Bytes) (expected : String) (info : MetadataInfo)
      → check_metadata t bytes expected ≡ fine info
      → Checked bytes expected info
  unfolding check_metadata
  Checked-of_fine bytes expected info h =
      let (root_hash, hashed, h1) = bind_fine (calculate_metadata_hash t bytes) _ h in
      let (u, same, h2) =
        bind_fine (ensure (text_eq root_hash expected) Problem.root_hash_mismatch) _ h1 in
      let (info', parsed, h3) = bind_fine (deserialize_metadata t bytes) _ h2 in
      let (v, entries, last) = bind_fine (check_entries t info'.file_infos) _ h3 in
      (
        hashed
            ∙ ap fine (
                (eq_iff root_hash expected).0
                  (ensure_fine (text_eq root_hash expected) Problem.root_hash_mismatch same)),
        parsed ∙ last,
        subst (λ (i : MetadataInfo). AllOf PassesSelf i.file_infos) (fine_eq last)
            (check_entries_all info'.file_infos entries),
      )

  of_Checked :
      (bytes : t.Bytes) (expected : String) (info : MetadataInfo)
      → Checked bytes expected info
      → check_metadata t bytes expected ≡ fine info
  unfolding check_metadata
  of_Checked bytes expected info (hashed, parsed, all) = rw hashed (
      rw ((eq_iff expected expected).1 refl)
        (rw parsed (rw (check_entries_fine info.file_infos all) refl)))

  -- The metadata that `verify` and `open` go on with are exactly those whose hash is the expected one,
  -- that can be parsed, and all of whose entries pass their self check.
  pub check_metadata-Checked :
      (bytes : t.Bytes) (expected : String) (info : MetadataInfo)
      → (check_metadata t bytes expected ≡ fine info) ↔ Checked bytes expected info
  check_metadata-Checked bytes expected info =
      (Checked-of_fine bytes expected info, of_Checked bytes expected info)

  module _ (open_file : String → Option (List ℕ)) where
    -- The content of the file has the recorded hash.
    abbrev pub HasContent : FileVerityInfo → Type 0
    HasContent info =
        (content : List ℕ) × (open_file info.path ≡ some content)
        × (content_hash t content ≡ fine info.descriptor_hash)

    contents_all :
        (infos : List FileVerityInfo) {u : Unit {0}}
        → check_contents t open_file infos ≡ fine u
        → AllOf HasContent infos
    unfolding check_contents
    contents_all [] h = tt
    contents_all (info ∷ rest) h =
        let (content, opened, h1) =
          bind_fine (require (open_file info.path) Problem.io_failed) _ h in
        let (hash, hashed, h2) = bind_fine (content_hash t content) _ h1 in
        let (u, same, h3) =
          bind_fine (ensure (text_eq hash info.descriptor_hash) Problem.descriptor_mismatch) _ h2 in
        (
          (
            content,
            required (open_file info.path) opened,
            hashed
                ∙ ap fine (
                    (eq_iff hash info.descriptor_hash).0 (
                      ensure_fine (text_eq hash info.descriptor_hash) Problem.descriptor_mismatch
                        same)),
          ),
          contents_all rest h3,
        )
      where
        required :
            (o : Option (List ℕ)) {c : List ℕ} → require o Problem.io_failed ≡ fine c → o ≡ some c
        required none e = cc e
        required (some x) e = ap some (fine_eq e)

    contents_fine :
        (infos : List FileVerityInfo)
        → AllOf HasContent infos
        → check_contents t open_file infos ≡ fine tt
    unfolding check_contents
    contents_fine [] all = refl
    contents_fine (info ∷ rest) ((content, opened, hashed), all) = rw opened (
        rw hashed
          (rw ((eq_iff info.descriptor_hash info.descriptor_hash).1 refl) (contents_fine rest all)))

    pub verify_of :
        (bytes : t.Bytes) (expected : String) (info : MetadataInfo)
        → Checked bytes expected info
        → AllOf HasContent info.file_infos
        → verify t (some bytes) expected false open_file ≡ fine tt
    unfolding verify
    verify_of bytes expected info checked all =
        rw (of_Checked bytes expected info checked) (contents_fine info.file_infos all)

    of_verify :
        (bytes : t.Bytes) (expected : String)
        → verify t (some bytes) expected false open_file ≡ fine tt
        → (info : MetadataInfo) × Checked bytes expected info × AllOf HasContent info.file_infos
    unfolding verify
    of_verify bytes expected h =
        let (info, checked, contents) = bind_fine (check_metadata t bytes expected) _ h in
        (info, Checked-of_fine bytes expected info checked, contents_all info.file_infos contents)

    -- A whole `verify` succeeds exactly if the metadata have the expected hash, can be parsed and
    -- have valid entries, every file can be read, and the hash of its content is the recorded one.
    pub verify-Checked :
        (bytes : t.Bytes) (expected : String)
        → (verify t (some bytes) expected false open_file ≡ fine tt)
          ↔ ((info : MetadataInfo) × Checked bytes expected info × AllOf HasContent info.file_infos)
    verify-Checked bytes expected = (
      of_verify bytes expected,
      λ (info, checked, all). verify_of bytes expected info checked all,
    )
