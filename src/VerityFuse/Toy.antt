-- ===== src/VerityFuse/Toy.antt =====
-- Small instances of what verity-fuse runs on: paths, caches of one entry, and a directory with honest
-- reads. The tests use them.
use Prim.Native.String.{String}
use cryptpilot.Prelude.{
  ℕ, zero, suc, ◌<◌, ◌≤◌, ◌≡◌, ◌⊎◌, inl, inr, refl, sym, ap, ◌∙◌, Option, some, none, Bool, true,
  false, ◌&&◌, Bool-cases, List, [], ◌∷◌, ◌++◌, length, take, drop, concat, length-take, bytes_eq,
  bytes_eq→eq, bytes_eq_refl, if◌then◌else◌, ◌==◌, ==_iff, some_eq, arith,
}
use text.Mathlib.Text.{◌==◌ as text_eq}
use cryptpilot.VerityCore.Tests.{toy, toy_laws, pieces, pieces_descriptor, pieces_tree}
use cryptpilot.VerityFuse.FileInfo.{FileVerityInfo}
use cryptpilot.VerityFuse.Paths.{RelativePaths, PathLaws}
use cryptpilot.VerityFuse.Source.{
  IoResult, FileKind, Metadata, PreadResult, bytes, os_error, Source, SourceLaws, LruCache, LruLaws,
  eintr,
}
use cryptpilot.VerityFuse.Cache.{BlockKey}
use cryptpilot.VerityFuse.Filesystem.{Runtime}
use cryptpilot.VerityFuse.Filesystem.Sound.{RuntimeLaws}

abbrev pub hex_text : List ℕ → String
hex_text hash = "digest"

abbrev pub some_info : FileVerityInfo
some_info = record {
  path = "dir/file";
  descriptor = pieces_descriptor;
  merkle_tree = pieces_tree;
  descriptor_hash = "digest";
}

-- A path as its components, the last one first.
abbrev pub components : String → List ℕ
components t =
    if text_eq t ""
    then []
    else (if text_eq t "dir" then 1 ∷ [] else (if text_eq t "dir/file" then 2 ∷ 1 ∷ [] else 3 ∷ []))

abbrev pub above : List ℕ → Option (List ℕ)
above [] = none
above (x ∷ p) = some p

abbrev pub no_components : List ℕ → Bool
no_components [] = true
no_components (x ∷ p) = false

abbrev pub toy_paths : RelativePaths
toy_paths = record {
  RelPath = List ℕ;
  from_text = components;
  from_path = λ t. some (components t);
  path_eq = bytes_eq;
  is_empty_text = no_components;
  parent = above;
  join = λ p q. q ++ p;
  depth = length;
}

pub length-above : (p q : List ℕ) → above p ≡ some q → length q < length p
length-above [] q h = cc
length-above (x ∷ p) q h = let same = ap length (some_eq h) in omega (arith, same)

pub toy_path_laws : PathLaws toy_paths
toy_path_laws = record {
  path_eq_iff = λ p q. (bytes_eq→eq p q, λ e. ap (bytes_eq p) (sym e) ∙ bytes_eq_refl p);
  depth-parent = length-above;
  parent_root = refl;
}

-- A cache of one entry.
abbrev pub held_at : {K V : Type 0} → (K → K → Bool) → Option (K × V) → K → Option V
held_at eq none k = none
held_at eq (some (j, v)) k = if eq j k then some v else none

abbrev pub one_entry : {K V : Type 0} → (K → K → Bool) → LruCache K V
one_entry {K} {V} eq = record {
  Cache = Option (K × V);
  new = λ n. none;
  get = λ m k. (m, held_at eq m k);
  put = λ m k v. some (k, v);
}

pub held_at-put :
    {K V : Type 0} (eq : K → K → Bool)
    → ((a b : K) → eq a b ≡ true → a ≡ b)
    → (m : Option (K × V)) (k : K) (v : V) (j : K) (w : V) → held_at eq (some (k, v)) j ≡ some w
    → ((j ≡ k) × (w ≡ v)) ⊎ (held_at eq m j ≡ some w)
held_at-put eq exact m k v j w h = elim (Bool-cases (eq k j)) [
  | inl e ↦
      inl (
        sym (exact k j e),
        sym (some_eq (ap (λ (b : Bool). if b then some v else none) (sym e) ∙ h)),
      )
  | inr e ↦ cc (ap (λ (b : Bool). if b then some v else none) (sym e) ∙ h)
]

abbrev pub one_entry_laws :
    {K V : Type 0} (eq : K → K → Bool)
    → ((a b : K) → eq a b ≡ true → a ≡ b)
    → LruLaws (one_entry {K = K} {V = V} eq)
one_entry_laws eq exact = record {
  contents = held_at eq;
  contents-new = λ n k. refl;
  get-contents = λ m k. refl;
  contents-get = λ m k j. refl;
  contents-put = held_at-put eq exact;
}

abbrev pub same_key : BlockKey → BlockKey → Bool
same_key a b = (a.ino == b.ino) && (a.block_index == b.block_index)

pub and_left : (p q : Bool) → (p && q) ≡ true → p ≡ true
and_left true q e = refl
and_left false q e = cc e

pub and_right : (p q : Bool) → (p && q) ≡ true → q ≡ true
and_right true q e = e
and_right false q e = cc e

pub same_key-exact : (a b : BlockKey) → same_key a b ≡ true → a ≡ b
same_key-exact a b h =
    let inos = (==_iff a.ino b.ino).0 (and_left (a.ino == b.ino) _ h) in
    let indices = (==_iff a.block_index b.block_index).0 (and_right (a.ino == b.ino) _ h) in
    ap (λ (n : ℕ). record { ino = n; block_index = a.block_index }) inos
    ∙ ap (λ (n : ℕ). record { ino = b.ino; block_index = n }) indices

abbrev pub some_metadata : Metadata
some_metadata = record {
  kind = FileKind.is_file;
  len = 11;
  accessed = some 1;
  modified = some 2;
  created = none;
  mode = 33_188;
  nlink = 1;
  uid = 0;
  gid = 0;
}

-- Honest reads, after so many interrupts.
abbrev pub toy_pread : ℕ → Unit {0} → ℕ → ℕ → ℕ × PreadResult
toy_pread zero h offset count = (0, PreadResult.bytes (take count (drop offset (concat pieces))))
toy_pread (suc w) h offset count = (w, PreadResult.os_error eintr)

abbrev pub toy_source : Source toy_paths
toy_source = record {
  World = ℕ;
  Handle = Unit {0};
  now = λ w. 100;
  open_ambient_dir = λ w p. (w, IoResult.done tt);
  symlink_metadata = λ w p. (w, IoResult.done some_metadata);
  open_file = λ w p. (w, IoResult.done tt);
  pread = toy_pread;
  read_dir = λ w p. (w, IoResult.done []);
  read_link = λ w p. (w, IoResult.done "other");
}

pub bytes_same : {xs ys : List ℕ} → PreadResult.bytes xs ≡ PreadResult.bytes ys → xs ≡ ys
bytes_same {xs} e = ap (λ r. elim r [ bytes zs ↦ zs | os_error n ↦ xs ]) e

pub toy_pread-bound :
    (w : ℕ) (h : Unit {0}) (offset count : ℕ) (got : List ℕ)
    → (toy_pread w h offset count).1 ≡ PreadResult.bytes got
    → length got ≤ count
toy_pread-bound zero h offset count got e =
    let same : take count (drop offset (concat pieces)) ≡ got = bytes_same e in
    omega (arith, ap (length {A = ℕ}) (sym same), length-take count (drop offset (concat pieces)))
toy_pread-bound (suc w) h offset count got e = cc e

pub toy_pread-interrupt :
    (w : ℕ) (h : Unit {0}) (offset count : ℕ)
    → (toy_pread w h offset count).1 ≡ PreadResult.os_error eintr
    → (toy_pread w h offset count).0 < w
toy_pread-interrupt zero h offset count e = cc e
toy_pread-interrupt (suc w) h offset count e = omega arith

pub toy_pread-le : (w : ℕ) (h : Unit {0}) (offset count : ℕ) → (toy_pread w h offset count).0 ≤ w
toy_pread-le zero h offset count = omega arith
toy_pread-le (suc w) h offset count = omega arith

abbrev pub toy_source_laws : SourceLaws toy_source
toy_source_laws = record {
  pread_bound = toy_pread-bound;
  patience = λ w. w;
  patience-interrupt = toy_pread-interrupt;
  patience-pread = toy_pread-le;
  patience-open_file = λ w p. omega arith;
}

abbrev pub toy_runtime : Runtime
toy_runtime = record {
  hash = toy;
  paths = toy_paths;
  source = toy_source;
  blocks = one_entry same_key;
  handles = one_entry ◌==◌;
}

abbrev pub toy_runtime_laws : RuntimeLaws toy_runtime
toy_runtime_laws = record {
  hash_laws = toy_laws;
  source_laws = toy_source_laws;
  block_laws = one_entry_laws same_key same_key-exact;
}
