-- ===== src/CryptpilotCrypt/Show/Status.antt =====
-- The calls that the status of a volume needs (cryptpilot-crypt/src/cmd/show.rs).
use Prim.Native.String.{String}
use cryptpilot.Prelude.{ℕ, Bool, true, false, List, [], ◌∷◌}
use cryptpilot.CryptpilotCore.Types.{VolumeType, temporary, persistent}
use cryptpilot.CryptpilotCore.System.{Op}
use cryptpilot.CryptpilotCore.Program.{ret, attempt}
use cryptpilot.CryptpilotCore.Program.Uses.{Uses, >>=-Uses, attempt-Uses, if-Uses}
use cryptpilot.CryptpilotCore.Provider.{volume_type}
use cryptpilot.CryptpilotCore.Luks2.{is_active, get_init_state}
use cryptpilot.CryptpilotCore.Calls.{is_active-Uses, get_init_state-Uses}
use cryptpilot.CryptpilotCrypt.Config.{VolumeConfig}
use cryptpilot.CryptpilotCrypt.Show.{
  VolumeStatusKind, status_of, persistent_status, status_by_type, status_if_closed,
  determine_status, statuses,
}

-- What the status needs are a few calls that read.
module _ (Q : Op → Type 0) (exists : (path : String) → Q (Op.path_exists path))
    (read : (dev : String) (n : ℕ) → Q (Op.read_first dev n)) where
  status_by_type-Uses :
      (config : VolumeConfig) (kind : VolumeType) → Uses Q (status_by_type config kind)
  unfolding persistent_status
  status_by_type-Uses config temporary = tt
  status_by_type-Uses config persistent =
      >>=-Uses Q (attempt (get_init_state config.dev)) (λ state. ret (status_of state))
        (attempt-Uses Q (get_init_state config.dev) (get_init_state-Uses Q config.dev (read _ _)))
        (λ state. tt)

  status_if_closed-Uses :
      (config : VolumeConfig) (exist : Bool) → Uses Q (status_if_closed config exist)
  unfolding status_if_closed
  status_if_closed-Uses config true = status_by_type-Uses config (volume_type config.key_provider)
  status_if_closed-Uses config false = tt

  pub determine_status-Uses : (config : VolumeConfig) → Uses Q (determine_status config)
  unfolding determine_status
  determine_status-Uses config =
      >>=-Uses Q (is_active config.volume) _ (is_active-Uses Q config.volume exists) (λ is_open.
        if-Uses Q is_open (ret VolumeStatusKind.opened) _ tt
          (exists config.dev, status_if_closed-Uses config))

  pub statuses-Uses : (configs : List VolumeConfig) → Uses Q (statuses configs)
  unfolding statuses
  statuses-Uses [] = tt
  statuses-Uses (config ∷ configs) =
      >>=-Uses Q (determine_status config) _ (determine_status-Uses config)
        (λ kind. >>=-Uses Q (statuses configs) _ (statuses-Uses configs) (λ kinds. tt))
