-- ===== src/CryptpilotCore/Luks2/Header.antt =====
-- The binary header of LUKS2, as `get_luks2_subsystem` of cryptpilot-core/src/fs/luks2.rs reads it.
use cryptpilot.Prelude.{
  ℕ, ◌+◌, ◌*◌, ◌||◌, not, Option, none, some, List, [], ◌∷◌, ltb, ◌==◌, length, take, drop, get_or,
  bytes_eq, if◌then◌else◌,
}

-- `size_of::<Luks2HdrDisk>()`: the fields up to the subsystem, and those behind it.
abbrev pub subsystem_offset : ℕ
subsystem_offset = 6 + 2 + 8 + 8 + 48 + 32 + 64 + 40

abbrev pub subsystem_size : ℕ
subsystem_size = 48

abbrev pub header_size : ℕ
header_size = subsystem_offset + subsystem_size + 8 + 184 + 64 + 7 * 512

abbrev pub luks_magic : List ℕ
luks_magic = b'L' ∷ b'U' ∷ b'K' ∷ b'S' ∷ 0xba ∷ 0xbe ∷ []

abbrev pub skul_magic : List ℕ
skul_magic = b'S' ∷ b'K' ∷ b'U' ∷ b'L' ∷ 0xba ∷ 0xbe ∷ []

-- `u16::from_be`.
abbrev pub version_of : List ℕ → ℕ
version_of buf = get_or buf 6 0 * 256 + get_or buf 7 0

-- The bytes up to the first NUL.
unfoldable pub until_nul : List ℕ → List ℕ
until_nul [] = []
until_nul (b ∷ bs) = if b == 0 then [] else b ∷ until_nul bs

abbrev pub named : List ℕ → Option (List ℕ)
named [] = none
named (b ∷ bs) = if bytes_eq (b ∷ bs) (b'-' ∷ []) then none else some (b ∷ bs)

-- None: the header is not valid. Then: its subsystem, if it has one.
unfoldable pub subsystem_of : List ℕ → Option (Option (List ℕ))
subsystem_of buf =
    if ltb (length buf) header_size
      || not (bytes_eq (take 6 buf) luks_magic || bytes_eq (take 6 buf) skul_magic)
      || not (version_of buf == 2)
    then none
    else some (named (until_nul (take subsystem_size (drop subsystem_offset buf))))
