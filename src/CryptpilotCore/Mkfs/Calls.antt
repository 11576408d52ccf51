-- ===== src/CryptpilotCore/Mkfs/Calls.antt =====
-- The calls of cryptpilot-core/src/fs/mkfs.rs: none of them goes to cryptsetup.
use Prim.Native.String.{String}
use cryptpilot.Prelude.{ℕ, List, [], ◌∷◌}
use cryptpilot.CryptpilotCore.Types.{IntegrityType, no_integrity, journal, no_journal, MakeFsType}
use cryptpilot.CryptpilotCore.System.{Op, Attempt}
use cryptpilot.CryptpilotCore.Program.{Program, call, ◌>>=◌, from_attempt}
use cryptpilot.CryptpilotCore.Program.Uses.{
  Uses, >>=-Uses, with_drop-Uses, from_attempt-Uses, Uses-weaken,
}
use cryptpilot.CryptpilotCore.Cmd.{run_command, ensure_module_loaded}
use cryptpilot.CryptpilotCore.Calls.{
  run_command-Uses, normal_mkfs-Uses, ensure_module_loaded-Uses, tried-Uses,
}
use cryptpilot.CryptpilotCore.Mkfs.{
  TraceApi, normal_mkfs, migrate_page, migrate_pages, migrate, rw_positions,
  setup_on_tmpfs_with_block_size, record_mkfs, replay_mkfs, integrity_mkfs, force_mkfs,
}

-- The calls that neither format, add a key, nor set a label.
abbrev pub Unmarked : Op → Type 0
Unmarked (Op.crypt_format params) = ⊥
Unmarked (Op.crypt_add_key dev size passphrase) = ⊥
Unmarked (Op.crypt_set_label dev label) = ⊥
Unmarked other = Unit

-- The calls that do not go to cryptsetup.
abbrev pub Plain : Op → Type 0
Plain (Op.crypt_init dev) = ⊥
Plain (Op.crypt_init_by_name name) = ⊥
Plain (Op.crypt_load dev) = ⊥
Plain (Op.crypt_deactivate name) = ⊥
Plain (Op.crypt_format params) = ⊥
Plain (Op.crypt_add_key dev size passphrase) = ⊥
Plain (Op.crypt_set_label dev label) = ⊥
Plain (Op.crypt_activate name dev passphrase flag) = ⊥
Plain other = Unit

Unmarked-Plain : (op : Op) → Plain op → Unmarked op
Unmarked-Plain (Op.crypt_format params) h = h
Unmarked-Plain (Op.crypt_add_key dev size passphrase) h = h
Unmarked-Plain (Op.crypt_set_label dev label) h = h
Unmarked-Plain other h = tt

migrate_pages-Plain :
    (dummy real : String) (size : ℕ) (pages : List ℕ)
    → Uses Plain (migrate_pages dummy real size pages)
unfolding migrate_pages migrate_page
migrate_pages-Plain dummy real size [] = tt
migrate_pages-Plain dummy real size (i ∷ rest) =
    >>=-Uses Plain (migrate_page dummy real size i) _
      (
        tt,
        λ r.
            >>=-Uses Plain (from_attempt r) _ (from_attempt-Uses Plain r)
              (λ buf. (tt, from_attempt-Uses Plain)),
      )
      (λ u. migrate_pages-Plain dummy real size rest)

setup-Plain : (size block : ℕ) → Uses Plain (setup_on_tmpfs_with_block_size size block)
unfolding setup_on_tmpfs_with_block_size
setup-Plain size block =
    >>=-Uses Plain (ensure_module_loaded "loop" []) _
      (ensure_module_loaded-Uses Plain (λ path. tt) (λ args. tt) "loop" [])
      (λ u. (tt, from_attempt-Uses Plain))

asked-Plain :
    {A B : Type 0} (r : Attempt A) (k : A → Program B)
    → ((a : A) → Uses Plain (k a))
    → Uses Plain (from_attempt r >>= k)
asked-Plain r k = >>=-Uses Plain (from_attempt r) k (from_attempt-Uses Plain r)

migrate-Uses :
    (dummy real : String) (size : ℕ) (pages : List ℕ) → Uses Plain (migrate dummy real size pages)
unfolding migrate
migrate-Uses dummy real size pages = (
  tt,
  λ r. tried-Uses Plain r _ (
    tt,
    λ q. tried-Uses Plain q _ (
        >>=-Uses Plain (migrate_pages dummy real size pages) _
          (migrate_pages-Plain dummy real size pages) (λ u. (tt, from_attempt-Uses Plain))),
  ),
)

module _ (api : TraceApi) where
  record_mkfs-Uses :
      (dummy : String) (fs_type : MakeFsType) → Uses Plain (record_mkfs api dummy fs_type)
  unfolding record_mkfs
  record_mkfs-Uses dummy fs_type = (
    tt,
    λ r. tried-Uses Plain r _ (
        with_drop-Uses Plain _ (call (Op.trace_stop dummy) from_attempt)
          (>>=-Uses Plain (normal_mkfs dummy fs_type) _ (normal_mkfs-Uses Plain dummy fs_type tt)
            (λ u.
              >>=-Uses Plain (run_command "blkid" ("-p" ∷ dummy ∷ [])) _
                (run_command-Uses Plain "blkid" ("-p" ∷ dummy ∷ []) tt)
                (λ stdout. (tt, from_attempt-Uses Plain))))
          (tt, from_attempt-Uses Plain)),
  )

  replay_mkfs-Uses :
      (dummy dev : String) (fs_type : MakeFsType) → Uses Plain (replay_mkfs api dummy dev fs_type)
  unfolding replay_mkfs
  replay_mkfs-Uses dummy dev fs_type =
      >>=-Uses Plain (record_mkfs api dummy fs_type) _ (record_mkfs-Uses dummy fs_type) (λ events. (
        tt,
        λ r. asked-Plain r _ (λ size. migrate-Uses dummy dev size (rw_positions api size events)),
      ))

  integrity_mkfs-Uses :
      (dev : String) (fs_type : MakeFsType) → Uses Plain (integrity_mkfs api dev fs_type)
  unfolding integrity_mkfs
  integrity_mkfs-Uses dev fs_type = (
    tt,
    λ r. tried-Uses Plain r _ (
      tt,
      λ q. asked-Plain q _ (λ size. (
        tt,
        λ b. asked-Plain b _ (λ block.
            >>=-Uses Plain (setup_on_tmpfs_with_block_size size block) _ (setup-Plain size block)
              (λ dummy.
                with_drop-Uses Plain (replay_mkfs api dummy dev fs_type)
                  (call (Op.detach_dummy dummy) from_attempt) (replay_mkfs-Uses dummy dev fs_type)
                  (tt, from_attempt-Uses Plain))),
      )),
    ),
  )

  pub force_mkfs-Plain :
      (dev : String) (fs_type : MakeFsType) (integrity : IntegrityType)
      → Uses Plain (force_mkfs api dev fs_type integrity)
  unfolding force_mkfs
  force_mkfs-Plain dev fs_type no_integrity = normal_mkfs-Uses Plain dev fs_type tt
  force_mkfs-Plain dev fs_type journal = integrity_mkfs-Uses dev fs_type
  force_mkfs-Plain dev fs_type no_journal = integrity_mkfs-Uses dev fs_type

pub migrate_pages-Uses :
    (dummy real : String) (size : ℕ) (pages : List ℕ)
    → Uses Unmarked (migrate_pages dummy real size pages)
migrate_pages-Uses dummy real size pages =
    Uses-weaken Plain Unmarked (migrate_pages dummy real size pages) Unmarked-Plain
      (migrate_pages-Plain dummy real size pages)

pub setup-Uses : (size block : ℕ) → Uses Unmarked (setup_on_tmpfs_with_block_size size block)
setup-Uses size block =
    Uses-weaken Plain Unmarked (setup_on_tmpfs_with_block_size size block) Unmarked-Plain
      (setup-Plain size block)

pub asked-Uses :
    {A B : Type 0} (r : Attempt A) (k : A → Program B)
    → ((a : A) → Uses Unmarked (k a))
    → Uses Unmarked (from_attempt r >>= k)
asked-Uses r k = >>=-Uses Unmarked (from_attempt r) k (from_attempt-Uses Unmarked r)

pub force_mkfs-Uses :
    (api : TraceApi) (dev : String) (fs_type : MakeFsType) (integrity : IntegrityType)
    → Uses Unmarked (force_mkfs api dev fs_type integrity)
force_mkfs-Uses api dev fs_type integrity =
    Uses-weaken Plain Unmarked (force_mkfs api dev fs_type integrity) Unmarked-Plain
      (force_mkfs-Plain api dev fs_type integrity)
