-- ===== src/CryptpilotCrypt/AutoOpen/Each.antt =====
-- The loop of cryptpilot-crypt/src/cmd/boot_service/auto_open.rs opens the selected volumes in turn.
use cryptpilot.Prelude.{
  ◌≡◌, refl, ap, ◌∙◌, true, false, List, [], ◌∷◌, if◌then◌else◌, inl, inr, Bool-cases,
}
use cryptpilot.CryptpilotCore.Program.{End, ok, err, crashed, Program, ret, attempt, Machine, run}
use cryptpilot.CryptpilotCore.Program.Runs.{continue, run->>=, caught, run-attempt}
use cryptpilot.CryptpilotCore.Mkfs.{TraceApi}
use cryptpilot.CryptpilotCrypt.Config.{VolumeConfig, is_set}
use cryptpilot.CryptpilotCrypt.Open.{open_for_specific_volume}
use cryptpilot.CryptpilotCrypt.AutoOpen.{auto_open_volume, auto_open_volumes}

-- The volumes with `auto_open = true`, in their order.
abbrev pub selected : List VolumeConfig → List VolumeConfig
selected [] = []
selected (config ∷ configs) =
    let rest = selected configs in
    if is_set config.extra_config.auto_open then config ∷ rest else rest

module _ (api : TraceApi) (m : Machine) where
  -- What follows, in the state after a run, unless the run was a panic.
  abbrev pub despite :
      (m.State → m.State × End (Unit {0})) → m.State × End (Unit {0}) → m.State × End (Unit {0})
  despite next (t, ok u) = next t
  despite next (t, err p) = next t
  despite next (t, crashed) = (t, crashed)

  -- One volume after the other is opened, whether the ones before failed or not, up to a panic.
  abbrev pub open_each : List VolumeConfig → m.State → m.State × End (Unit {0})
  open_each [] s = (s, ok tt)
  open_each (config ∷ configs) s =
      despite (open_each configs) (run m s (open_for_specific_volume api config false))

  -- A volume that is opened, and then the others.
  opened_then :
      (r : m.State × End (Unit {0})) (next : Program (Unit {0}))
      (go : m.State → m.State × End (Unit {0}))
      → ((t : m.State) → run m t next ≡ go t)
      → continue m (continue m (caught r) (λ res. ret tt)) (λ u. next) ≡ despite go r
  opened_then (t, ok u) next go h = h t
  opened_then (t, err p) next go h = h t
  opened_then (t, crashed) next go h = refl

  volume_run :
      (config : VolumeConfig) (s : m.State)
      → is_set config.extra_config.auto_open ≡ true
      → run m s (auto_open_volume api config)
        ≡ continue m (caught (run m s (open_for_specific_volume api config false))) (λ res. ret tt)
  unfolding auto_open_volume
  volume_run config s h =
      rw (h, auto_open_volume)
        (run->>= m s (attempt (open_for_specific_volume api config false)) _
          ∙ ap (λ r. continue m r (λ res. ret tt))
              (run-attempt m s (open_for_specific_volume api config false)))

  skipped_run :
      (config : VolumeConfig) (s : m.State)
      → is_set config.extra_config.auto_open ≡ false
      → run m s (auto_open_volume api config) ≡ (s, ok tt)
  unfolding auto_open_volume
  skipped_run config s h = rw (h, auto_open_volume) refl

  -- In every environment, the loop over the volumes does what it takes to open those with
  -- `auto_open = true` one after the other, in their order and without a check of the file system: a
  -- volume that fails stops neither the ones after it nor the loop, only a panic does.
  pub auto_open_volumes-open_each :
      (configs : List VolumeConfig) (s : m.State)
      → run m s (auto_open_volumes api configs) ≡ open_each (selected configs) s
  unfolding auto_open_volumes
  auto_open_volumes-open_each [] s = refl
  auto_open_volumes-open_each (config ∷ configs) s =
      elim (Bool-cases (is_set config.extra_config.auto_open)) [
        | inl set ↦
            run->>= m s (auto_open_volume api config) _
            ∙ ap (λ r. continue m r (λ u. auto_open_volumes api configs)) (volume_run config s set)
            ∙ opened_then (run m s (open_for_specific_volume api config false))
                (auto_open_volumes api configs) (open_each (selected configs))
                (auto_open_volumes-open_each configs)
            ∙ rw set refl
        | inr unset ↦
            run->>= m s (auto_open_volume api config) _
            ∙ ap (λ r. continue m r (λ u. auto_open_volumes api configs))
                (skipped_run config s unset)
            ∙ auto_open_volumes-open_each configs s
            ∙ rw unset refl
      ]
