-- ===== src/VerityFuse/Paths.antt =====
-- What verity-fuse uses of the crate relative_path: paths below a root, by their components.
use Prim.Native.String.{String}
use cryptpilot.Prelude.{ℕ, ◌<◌, ◌≡◌, ◌↔◌, Bool, true, Option, none, some}

pub record RelativePaths : Type 1 where
  pub RelPath : Type 0
  pub from_text : String → RelPath
  -- `RelativePath::from_path`, which refuses absolute paths and text that is not UTF-8.
  pub from_path : String → Option RelPath
  pub path_eq : RelPath → RelPath → Bool
  -- `as_str().is_empty()`.
  pub is_empty_text : RelPath → Bool
  pub parent : RelPath → Option RelPath
  pub join : RelPath → RelPath → RelPath
  -- The number of components.
  pub depth : RelPath → ℕ

pub record PathLaws (r : RelativePaths) : Type 0 where
  pub path_eq_iff : (p q : r.RelPath) → (r.path_eq p q ≡ true) ↔ (p ≡ q)
  -- A parent has one component less.
  pub depth-parent : (p q : r.RelPath) → r.parent p ≡ some q → r.depth q < r.depth p
  -- The empty path has no parent.
  pub parent_root : r.parent (r.from_text "") ≡ none
