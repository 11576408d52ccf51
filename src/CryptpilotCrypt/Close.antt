-- ===== src/CryptpilotCrypt/Close.antt =====
-- cryptpilot-crypt/src/cmd/close.rs: the mappings of volumes are removed.
use Prim.Native.String.{String}
use cryptpilot.Prelude.{List, [], ◌∷◌, if◌then◌else◌}
use cryptpilot.CryptpilotCore.Program.{Program, ret, ◌>>=◌, ◌>>◌}
use cryptpilot.CryptpilotCore.Luks2.{is_active, close}

unfoldable pub close_volume : String → Program (Unit {0})
close_volume volume = is_active volume >>= λ active. if active then close volume else ret tt

-- `CloseCommand::run`.
unfoldable pub close_volumes : List String → Program (Unit {0})
close_volumes [] = ret tt
close_volumes (volume ∷ volumes) = close_volume volume >> close_volumes volumes
