-- ===== src/Auth/Classic.antt =====
-- Steam/steamclient_legacy/auth/ClassicRevEmuTicket.h and .cpp: the strict check of the 152-byte
-- ticket of classic RevEmu and ClientMod clients. A pointer is `none` when it is NULL, and
-- otherwise the memory that it points at; the caller owns the bytes up to the size it passes.
use revive_emu.Base.{
  ℕ, ◌*◌, ◌%◌, ◌^◌, Bool, true, false, not, ◌||◌, Option, none, some, List, bit_or, ◌==◌,
  if◌then◌else◌,
}
use revive_emu.Base.Read.{read_bytes}
use revive_emu.Base.Bytes.{Memory, u32_mod}
use revive_emu.SteamId.{SteamId, set_from_uint64, is_valid}
use revive_emu.Auth.Memory.{read_le32}

abbrev pub ticket_size_classic : ℕ
ticket_size_classic = 152

abbrev pub classic_header : ℕ
classic_header = 0x53

abbrev pub classic_magic : ℕ
classic_magic = 0x726576

abbrev pub classic_steam_id_high : ℕ
classic_steam_id_high = 0x1100001

-- ClassicRevEmuTicketResult
pub data ClassicResult : Type 0 where
  valid invalid_length null invalid_header invalid_magic invalid_reserved : ClassicResult
  invalid_steam_id_high invalid_identity_relation invalid_identity : ClassicResult

-- ClassicRevEmuTicketInfo
pub record ClassicInfo : Type 0 where
  pub hash : ℕ
  pub steam_id_low : ℕ
  pub steam_id_high : ℕ
  pub steam_id : SteamId
  pub hwid : List ℕ

-- What `*out` is set to once every check has passed.
unfoldable pub classic_info : Memory → ClassicInfo
classic_info p = record {
  hash = read_le32 p 0x04;
  steam_id_low = read_le32 p 0x10;
  steam_id_high = read_le32 p 0x14;
  steam_id = set_from_uint64 (bit_or (read_le32 p 0x14 * 2 ^ 32) (read_le32 p 0x10));
  hwid = read_bytes p 0x18 128;
}

-- The checks on the fields, in the order of the source.
unfoldable pub check_fields : Memory → ClassicResult
unfolding classic_info
check_fields p =
    let hash = read_le32 p 0x04 in
    let low = read_le32 p 0x10 in
    if not (read_le32 p 0x00 == classic_header)
    then invalid_header
    else if not (read_le32 p 0x08 == classic_magic)
    then invalid_magic
    else if not (read_le32 p 0x0c == 0)
    then invalid_reserved
    else if not (read_le32 p 0x14 == classic_steam_id_high)
    then invalid_steam_id_high
    else if not (low == hash * 2 % u32_mod)
    then invalid_identity_relation
    else if hash == 0 || low == 0
    then invalid_identity
    else if not (is_valid (classic_info p).steam_id)
    then invalid_identity
    else valid

-- `*out` is written in the valid case alone.
unfoldable pub write_out : ClassicResult → Memory → Option ClassicInfo
write_out valid p = some (classic_info p)
write_out _ p = none

-- `ValidateClassicRevEmuTicket`: the result, and what is written through `out`.
unfoldable pub validate_classic : Option Memory → ℕ → ClassicResult × Option ClassicInfo
unfolding check_fields write_out
validate_classic ticket size =
    if not (size == ticket_size_classic) then (invalid_length, none) else elim ticket [
      | none ↦ (null, none)
      | some p ↦ (check_fields p, write_out (check_fields p) p)
    ]

-- `ParseClassicRevEmuTicket`
unfoldable pub parse_classic : Option Memory → ℕ → Bool × Option ClassicInfo
unfolding validate_classic
parse_classic ticket size =
    let (result, out) = validate_classic ticket size in
    (elim result [ valid ↦ true | _ ↦ false ], out)
