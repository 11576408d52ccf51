-- ===== src/CryptpilotCrypt/Init/Order/Filesystem.antt =====
-- The file system that `init` makes with cryptpilot-core/src/fs/mkfs.rs on a temporary volume.
use Prim.Native.String.{String}
use text.Mathlib.TextPositions.{eq_refl}
use cryptpilot.Prelude.{
  ℕ, Bool, true, false, ◌&&◌, some, List, [], ◌∷◌, ◌≡◌, refl, sym, subst, ap, ◌∙◌, inl,
  if◌then◌else◌,
}
use cryptpilot.CryptpilotCore.Types.{MakeFsType, swap, ext4, xfs, vfat}
use cryptpilot.CryptpilotCore.System.{Op, Attempt, good, bad, BlkTraceEvent}
use cryptpilot.CryptpilotCore.Program.{call, ◌>>=◌, from_attempt}
use cryptpilot.CryptpilotCore.Program.Uses.{Uses, >>=-Uses, from_attempt-Uses}
use cryptpilot.CryptpilotCore.Program.Gets.{>>=-Gets, tried-Gets}
use cryptpilot.CryptpilotCore.Cmd.{run_command, ensure_module_loaded}
use cryptpilot.CryptpilotCore.Cmd.Answers.{succeeded, run_silently-Gets}
use cryptpilot.CryptpilotCore.Calls.{run_command-Uses, ensure_module_loaded-Uses}
use cryptpilot.CryptpilotCore.Mkfs.{
  TraceApi, mkfs_command, mkfs_args, normal_mkfs, migrate, rw_positions,
  setup_on_tmpfs_with_block_size, record_mkfs, replay_mkfs, integrity_mkfs,
}
use cryptpilot.CryptpilotCrypt.Config.{VolumeConfig}
use cryptpilot.CryptpilotCrypt.Init.Order.{Progress, is_mkfs, with_last, advance, In, init_order}
use cryptpilot.CryptpilotCrypt.Init.Order.Marked.{Has, Settled, aimed, made_on, recorded, moved}
use cryptpilot.CryptpilotCrypt.Init.Order.Migration.{
  Unlabelled, Reaches, quiet_then, quiet_drop, migrate-Gets,
}

-- The device is the last argument of mkfs.
with_last-mkfs_args :
    (fs_type : MakeFsType) (dev : String) (made : List String)
    → with_last (mkfs_args fs_type dev) made ≡ dev ∷ made
with_last-mkfs_args swap dev made = refl
with_last-mkfs_args ext4 dev made = refl
with_last-mkfs_args xfs dev made = refl
with_last-mkfs_args vfat dev made = refl

In-made :
    (named done : Bool) (dev : String) (args made : List String)
    → named ≡ true
    → done ≡ true
    → with_last args made ≡ dev ∷ made
    → In dev (if named && done then with_last args made else made)
In-made true true dev args made n d e = subst (In dev) (sym e) (inl refl)
In-made true false dev args made n d e = cc d
In-made false done dev args made n d e = cc n

setup-Settled : (size block : ℕ) → Uses Settled (setup_on_tmpfs_with_block_size size block)
unfolding setup_on_tmpfs_with_block_size
setup-Settled size block =
    >>=-Uses Settled (ensure_module_loaded "loop" []) _
      (ensure_module_loaded-Uses Settled (λ path. tt) (λ args. tt) "loop" [])
      (λ u. (tt, from_attempt-Uses Settled))

module _ (api : TraceApi) (config : VolumeConfig) (k : Bool) (fs_type : MakeFsType)
    (wanted : config.extra_config.makefs ≡ some fs_type) (real : String) where
  -- When mkfs returns, it ended with 0 on the device.
  pub normal_mkfs-Gets :
      (s : Progress) (dev : String)
      → Has api k (aimed real) s
      → Reaches api config k (λ t u. Has api k (made_on real dev) t) s (normal_mkfs dev fs_type)
  unfolding normal_mkfs
  normal_mkfs-Gets s dev h =
      run_silently-Gets (init_order api config) Unlabelled (Has api k (made_on real dev)) s
        (mkfs_command fs_type) (mkfs_args fs_type dev) tt (λ r. h.unlabelled)
        (λ r done. record {
          unlabelled = h.unlabelled;
          has_key = h.has_key;
          reached = (
            h.reached,
            In-made (is_mkfs config.extra_config.makefs (mkfs_command fs_type)) (succeeded r) dev
                (mkfs_args fs_type dev) s.made
                (ap (λ o. is_mkfs o (mkfs_command fs_type)) wanted ∙ eq_refl (mkfs_command fs_type))
                done (with_last-mkfs_args fs_type dev s.made),
          );
        })

  module _ (dummy : String) where
    finished :
        (s : Progress)
        → Has api k (made_on real dummy) s
        → (r : Attempt (List BlkTraceEvent))
        → Reaches api config k
            (λ t (events : List BlkTraceEvent). Has api k (recorded real dummy events) t)
            (advance config s (Op.trace_finish dummy) r)
            (from_attempt r)
    finished s h (good events) = record {
      unlabelled = h.unlabelled;
      has_key = h.has_key;
      reached = (h.reached.0, h.reached.1, refl);
    }
    finished s h (bad e) = h.unlabelled

    record_mkfs-Gets :
        (s : Progress)
        → Has api k (aimed real) s
        → Reaches api config k
            (λ t (events : List BlkTraceEvent). Has api k (recorded real dummy events) t)
            s
            (record_mkfs api dummy fs_type)
    unfolding record_mkfs
    record_mkfs-Gets s h = (
      tt,
      λ r.
          tried-Gets (init_order api config) Unlabelled
            (λ t events. Has api k (recorded real dummy events) t) s r _ h.unlabelled
            (λ u.
              quiet_drop api config k (λ events. recorded real dummy events) s _
                (call (Op.trace_stop dummy) from_attempt)
                (>>=-Gets (init_order api config) Unlabelled
                  (λ t v. Has api k (made_on real dummy) t)
                  (λ t events. Has api k (recorded real dummy events) t) s
                  (normal_mkfs dummy fs_type) _ (normal_mkfs-Gets s dummy h)
                  (λ t v made.
                    quiet_then api config k (made_on real dummy)
                      (λ w events. Has api k (recorded real dummy events) w) t
                      (run_command "blkid" ("-p" ∷ dummy ∷ [])) _
                      (run_command-Uses Settled "blkid" ("-p" ∷ dummy ∷ []) tt) made
                      (λ w stdout kept. (tt, finished w kept))))
                (tt, from_attempt-Uses Settled)),
    )

    with_page_size :
        (s : Progress) (events : List BlkTraceEvent)
        → Has api k (recorded real dummy events) s
        → (r : Attempt ℕ)
        → Reaches api config k
            (λ t (u : Unit {0}). Has api k moved t)
            (advance config s Op.page_size r)
            (from_attempt r >>= λ size. migrate dummy real size (rw_positions api size events))
    with_page_size s events h (good size) =
        migrate-Gets api config k real dummy events size (advance config s Op.page_size (good size))
          (record {
            unlabelled = h.unlabelled;
            has_key = h.has_key;
            reached = (h.reached.0, h.reached.1, h.reached.2, refl);
          })
    with_page_size s events h (bad e) = h.unlabelled

    replay_mkfs-Gets :
        (s : Progress)
        → Has api k (aimed real) s
        → Reaches api config k
            (λ t (u : Unit {0}). Has api k moved t)
            s
            (replay_mkfs api dummy real fs_type)
    unfolding replay_mkfs
    replay_mkfs-Gets s h =
        >>=-Gets (init_order api config) Unlabelled
          (λ t events. Has api k (recorded real dummy events) t) (λ t u. Has api k moved t) s
          (record_mkfs api dummy fs_type) _ (record_mkfs-Gets s h)
          (λ t events done. (tt, with_page_size t events done))

  pub integrity_mkfs-Gets :
      (s : Progress)
      → Has api k (aimed real) s
      → Reaches api config k
          (λ t (u : Unit {0}). Has api k moved t)
          s
          (integrity_mkfs api real fs_type)
  unfolding integrity_mkfs
  integrity_mkfs-Gets s h = (
    tt,
    λ r.
        tried-Gets (init_order api config) Unlabelled (λ t u. Has api k moved t) s r _ h.unlabelled
          (λ u. (
            tt,
            λ q.
                tried-Gets (init_order api config) Unlabelled (λ t u. Has api k moved t) s q _
                  h.unlabelled
                  (λ size. (
                    tt,
                    λ b.
                        tried-Gets (init_order api config) Unlabelled (λ t u. Has api k moved t) s b
                          _ h.unlabelled
                          (λ block.
                            quiet_then api config k (aimed real) (λ t u. Has api k moved t) s
                              (setup_on_tmpfs_with_block_size size block) _
                              (setup-Settled size block) h
                              (λ t dummy kept.
                                quiet_drop api config k (λ u. moved) t
                                  (replay_mkfs api dummy real fs_type)
                                  (call (Op.detach_dummy dummy) from_attempt)
                                  (replay_mkfs-Gets dummy t kept) (tt, from_attempt-Uses Settled))),
                  )),
          )),
  )
