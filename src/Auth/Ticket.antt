-- ===== src/Auth/Ticket.antt =====
-- Steam/steamclient_legacy/auth/LegacyAuthTicket.h and .cpp: the ticket kinds, the replay
-- fingerprint, and the entry point that the game server calls.
use revive_emu.Base.{
  ℕ, zero, suc, ◌+◌, ◌*◌, ◌%◌, not, ◌||◌, Option, none, some, bit_xor, ◌==◌, if◌then◌else◌,
}
use revive_emu.Base.Bytes.{Memory, u64_mod}
use revive_emu.SteamId.{SteamId, nil}
use revive_emu.Auth.Memory.{read_le32}
use revive_emu.Auth.Classic.{
  ClassicResult, ClassicInfo, ticket_size_classic, classic_header, classic_magic, validate_classic,
}

-- AuthTicketType
pub data TicketType : Type 0 where
  unknown classic_rev_emu : TicketType

-- AuthTicketResult
pub data TicketResult : Type 0 where
  valid invalid_length null unsupported_format invalid_header invalid_magic : TicketResult
  invalid_reserved invalid_steam_id_high invalid_identity_relation invalid_identity : TicketResult

-- AuthTicketIdentity
pub record Identity : Type 0 where
  pub type_of : TicketType
  pub steam_id : SteamId
  pub fingerprint : ℕ
  pub classic_hash : ℕ
  pub classic_steam_id_low : ℕ
  pub classic_steam_id_high : ℕ

-- The constructor `AuthTicketIdentity()`.
abbrev pub no_identity : Identity
no_identity = record {
  type_of = unknown;
  steam_id = nil;
  fingerprint = 0;
  classic_hash = 0;
  classic_steam_id_low = 0;
  classic_steam_id_high = 0;
}

-- `ConvertClassicResult`
unfoldable pub convert_classic_result : ClassicResult → TicketResult
convert_classic_result ClassicResult.valid = valid
convert_classic_result ClassicResult.invalid_length = invalid_length
convert_classic_result ClassicResult.null = null
convert_classic_result ClassicResult.invalid_header = invalid_header
convert_classic_result ClassicResult.invalid_magic = invalid_magic
convert_classic_result ClassicResult.invalid_reserved = invalid_reserved
convert_classic_result ClassicResult.invalid_steam_id_high = invalid_steam_id_high
convert_classic_result ClassicResult.invalid_identity_relation = invalid_identity_relation
convert_classic_result ClassicResult.invalid_identity = invalid_identity

-- `DetectAuthTicketType`: one intact discriminator is enough.
unfoldable pub detect_type : Option Memory → ℕ → TicketType
detect_type none size = unknown
detect_type (some p) size =
    if not (size == ticket_size_classic)
    then unknown
    else if read_le32 p 0x00 == classic_header || read_le32 p 0x08 == classic_magic
    then classic_rev_emu
    else unknown

abbrev pub fnv_offset : ℕ
fnv_offset = 14695981039346656037

abbrev pub fnv_prime : ℕ
fnv_prime = 1099511628211

-- One round of FNV-1a on a byte.
unfoldable pub fnv_step : ℕ → ℕ → ℕ
fnv_step hash byte = bit_xor hash byte * fnv_prime % u64_mod

-- The loop at index `i`, with `n` rounds left.
unfoldable pub fnv_loop : Memory → ℕ → ℕ → ℕ → ℕ
unfolding fnv_step
fnv_loop p zero i hash = hash
fnv_loop p (suc n) i hash = fnv_loop p n (i + 1) (fnv_step hash (p i))

-- `AuthTicketFingerprint`
unfoldable pub ticket_fingerprint : Option Memory → ℕ → ℕ
unfolding fnv_loop
ticket_fingerprint none size = 0
ticket_fingerprint (some p) size = if size == 0 then 0 else fnv_loop p size 0 fnv_offset

-- What `*out` is set to on a valid ticket.
unfoldable pub identity_of : ClassicInfo → Option Memory → ℕ → Identity
identity_of info ticket size = record {
  type_of = classic_rev_emu;
  steam_id = info.steam_id;
  fingerprint = ticket_fingerprint ticket size;
  classic_hash = info.hash;
  classic_steam_id_low = info.steam_id_low;
  classic_steam_id_high = info.steam_id_high;
}

-- The tail of `ParseAndValidateAuthTicket`, after the classic validator has run.
unfoldable pub finish_parse :
    ClassicResult × Option ClassicInfo → Option Memory → ℕ → TicketResult × Option Identity
unfolding convert_classic_result identity_of
finish_parse (ClassicResult.valid, some info) ticket size =
    (valid, some (identity_of info ticket size))
finish_parse (ClassicResult.valid, none) ticket size = (valid, none)
finish_parse (result, out) ticket size = (convert_classic_result result, none)

-- `ParseAndValidateAuthTicket`: the result, and what is written through `out`.
unfoldable pub parse_and_validate : Option Memory → ℕ → TicketResult × Option Identity
unfolding detect_type finish_parse
parse_and_validate ticket size =
    if not (size == ticket_size_classic) then (invalid_length, none) else elim ticket [
      | none ↦ (null, none)
      | some p ↦ elim (detect_type (some p) size) [
        | unknown ↦ (unsupported_format, none)
        | classic_rev_emu ↦ finish_parse (validate_classic (some p) size) (some p) size
      ]
    ]
