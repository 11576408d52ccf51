-- ===== src/CryptpilotCore/Tests.antt =====
-- The theorems on cryptpilot-core/src at concrete inputs, and tests of the definitions.
use cryptpilot.Prelude.{
  ℕ, ◌+◌, ◌*◌, ◌≡◌, ◌↔◌, refl, true, none, some, List, [], ◌∷◌, ◌++◌, replicate, arith,
}
use cryptpilot.Prelude.Text.{codes, trim, lines, decimal}
use cryptpilot.CryptpilotCore.System.{BlkTraceEvent}
use cryptpilot.CryptpilotCore.Luks2.Header.{luks_magic, until_nul, subsystem_of}
use cryptpilot.CryptpilotCore.Blkid.{known_signature, parse_blkid_field, parse_probe}
use cryptpilot.CryptpilotCore.Blkid.Fields.{parse_probe-known}
use cryptpilot.CryptpilotCore.Mkfs.{
  TraceApi, contains, insert, insert_range, insert_event, touched_from, rw_positions,
}
use cryptpilot.CryptpilotCore.Mkfs.Pages.{Touched, Distinct, rw_positions-Touched}

abbrev api : TraceApi
api = record { tc_shift = 16; tc_read = 1; tc_write = 2; tc_discard = 8192 }

-- A write of 8 KiB from the middle of the first page, a read of one sector, and a discard.
abbrev events : List BlkTraceEvent
events =
    record { action = 2 * 65536 + 7; sector = 4; bytes = 8192 }
    ∷ record { action = 65536 + 7; sector = 9; bytes = 512 }
    ∷ record { action = 8194 * 65536; sector = 800; bytes = 4096 }
    ∷ []

pages : rw_positions api 4096 events ≡ 0 ∷ 1 ∷ 2 ∷ []
unfolding rw_positions touched_from insert_event insert_range insert
pages = refl

rw_positions-Touched_example :
    ((p : ℕ) → (contains p (rw_positions api 4096 events) ≡ true) ↔ Touched api 4096 events p)
    × Distinct (rw_positions api 4096 events)
rw_positions-Touched_example = rw_positions-Touched api 4096 (omega arith) events

abbrev atari : List ℕ
atari = codes "/dev/sdb: PTTYPE=\"atari\"\n"

atari_type : parse_blkid_field (trim atari) (codes "TYPE") ≡ some (codes "atari")
unfolding parse_blkid_field
atari_type = refl

parse_probe-known_example :
    parse_probe atari
    ≡ known_signature
        (parse_blkid_field (trim atari) (codes "TYPE"))
        (parse_blkid_field (trim atari) (codes "PTTYPE"))
        (parse_blkid_field (trim atari) (codes "SUBSYSTEM"))
parse_probe-known_example = parse_probe-known atari

two_lines : lines (codes "a\r\nb\n") ≡ codes "a" ∷ codes "b" ∷ []
two_lines = refl

printed : decimal 4096 ≡ "4096"
printed = refl

abbrev header : List ℕ → List ℕ
header subsystem =
    luks_magic ++ 0 ∷ 2 ∷ replicate 200 7 ++ subsystem ++ replicate (48 + 8 + 184 + 64 + 7 * 512) 0

initialized : subsystem_of (header (codes "cryptpilot")) ≡ some (some (codes "cryptpilot"))
unfolding subsystem_of until_nul
initialized = refl

unnamed : subsystem_of (header (codes "-")) ≡ some none
unfolding subsystem_of until_nul
unnamed = refl
