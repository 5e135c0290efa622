-- ===== src/Validation.antt =====
-- Steam/steam/SteamUserIDValidation.h: tickets of the emulator, their validation, and the vector of
-- validation handles. Where `g_bSteamDll` is set the call goes to the original library first; what
-- that answers is an argument, and `none` stands for a run without it. A handle is the number of its
-- address, `new` takes an address from the caller, and an address that no live handle has is not
-- read: the answer is then `none`. Error codes are the numbers of `ESteamError`.
pub mod Issue
pub mod Handles
pub mod Classic
mod Tests
use revive_emu.Base.{
  ℕ, zero, suc, ◌+◌, ◌*◌, ◌%◌, ◌^◌, Bool, true, false, not, ◌&&◌, ◌||◌, Option, none, some, List,
  [], ◌∷◌, ◌++◌, ◌==◌, ltb, if◌then◌else◌,
}
use revive_emu.Base.Read.{read_le}
use revive_emu.Base.Bytes.{Memory, u32_mod}
use revive_emu.SteamId.{
  SteamId, GlobalUserId, nil, set, set_from_uint64, convert_to_uint64, convert_to_steam2,
}
use revive_emu.SteamId.AccountType
use revive_emu.SteamId.Universe
use revive_emu.Auth.Classic.{ClassicInfo, validate_classic}
use revive_emu.Callbacks.{le_bytes}

-- REVTICKET_SIGNATURE and its like (RevCommon.h)
abbrev pub rev_signature : ℕ
rev_signature = 0x52455646

abbrev pub rev_version : ℕ
rev_version = 3

abbrev pub rev_size : ℕ
rev_size = 20

abbrev pub steam_signature : ℕ
steam_signature = 0x63845768

abbrev pub steam_size_win : ℕ
steam_size_win = 0x20

abbrev pub steam_size_linux : ℕ
steam_size_linux = 0x18

-- eSteamErrorNone and its like (SteamCommon.h)
abbrev pub error_none : ℕ
error_none = 0

abbrev pub error_unknown : ℕ
error_unknown = 1

abbrev pub error_not_finished : ℕ
error_not_finished = 23

abbrev pub error_nothing_to_do : ℕ
error_nothing_to_do = 24

abbrev pub error_corrupt_ticket : ℕ
error_corrupt_ticket = 25

abbrev pub error_invalid_ticket : ℕ
error_invalid_ticket = 36

-- STEAM_INACTIVE_USERIDTICKET_VALIDATION_HANDLE
abbrev pub inactive : ℕ
inactive = 0

-- ERevClientType
pub data ClientType : Type 0 where
  rev legit legit_wrapper unknown : ClientType

-- TRevUserValidationHandle
pub record Handle : Type 0 where
  pub client_type : ClientType
  pub steam2_id : GlobalUserId
  pub steam3_id : SteamId
  pub ip : ℕ
  pub ticket_ip : ℕ
  pub legit_handle : ℕ
  pub return_code : ℕ

-- The handle after its `memset`.
abbrev pub zero_handle : Handle
zero_handle = record {
  client_type = rev;
  steam2_id = record { instance_id = 0; low32bits = 0; high32bits = 0 };
  steam3_id = nil;
  ip = 0;
  ticket_ip = 0;
  legit_handle = 0;
  return_code = error_none;
}

-- `g_RevUserValidations`: the pointers in order, each with what it points at.
abbrev pub Table : Type 0
Table = List (ℕ × Handle)

-- A buffer after bytes were copied to its start.
unfoldable pub store : List ℕ → Memory → Memory
store [] p i = p i
store (b ∷ bs) p zero = b
store (b ∷ bs) p (suc i) = store bs (λ j. p (suc j)) i

-- The 20 bytes of a ticket.
unfoldable pub ticket_bytes : SteamId → List ℕ
ticket_bytes id =
    le_bytes 4 rev_signature
    ++ le_bytes 4 rev_version
    ++ le_bytes 8 (convert_to_uint64 id)
    ++ le_bytes 4 0

-- `SteamGetEncryptedUserIDTicket`: the output buffer and the size of the ticket. The size of the
-- buffer is not looked at.
unfoldable pub get_encrypted_user_id_ticket : SteamId → Memory → Memory × ℕ
get_encrypted_user_id_ticket id output = (store (ticket_bytes id) output, rev_size)

-- The branch of the emulator's own tickets.
unfoldable pub check_rev : Memory → ℕ → Handle → Handle
check_rev p size h =
    if read_le 4 p 0x04 == rev_version
    then if size == rev_size
      then record h {
        client_type = rev;
        steam3_id = set_from_uint64 (read_le 8 p 0x08);
        ticket_ip = read_le 4 p 0x10;
        return_code = error_none;
      }
      else record h { client_type = rev; return_code = error_corrupt_ticket }
    else record h { client_type = rev; return_code = error_invalid_ticket }

-- The branch of the official wrapper's tickets: the fields stand at offsets of the sender's system.
unfoldable pub wrapper_handle : Memory → Handle → ℕ → ℕ → ℕ → Handle
wrapper_handle p h instance_at account_at ip_at = record h {
  client_type = legit_wrapper;
  steam2_id = record {
    instance_id = read_le 2 p instance_at;
    low32bits = read_le 4 p account_at;
    high32bits = read_le 4 p (account_at + 4);
  };
  ticket_ip = read_le 4 p ip_at;
  return_code = error_none;
}

unfoldable pub check_wrapper : Memory → ℕ → Handle → Handle
check_wrapper p size h =
    if size == steam_size_win
    then wrapper_handle p h 0x08 0x10 0x18
    else if size == steam_size_linux
    then wrapper_handle p h 0x04 0x08 0x10
    else record h { client_type = legit_wrapper; return_code = error_corrupt_ticket }

-- The branch of a client that is not recognised: its id is made from its address.
unfoldable pub unknown_client : Bool → ℕ → Handle → Handle
unknown_client allow_non_rev ip h = record h {
  client_type = unknown;
  steam3_id = set ip Universe.public AccountType.individual;
  ticket_ip = 0;
  return_code = if allow_non_rev then error_none else error_invalid_ticket;
}

-- The branch of a classic ticket that passed, and what is tried after it.
unfoldable pub check_other : Bool → Memory → ℕ → ℕ → Handle → Option ClassicInfo → Handle
check_other allow_non_rev p size ip h (some info) = record h {
  client_type = rev;
  steam3_id = info.steam_id;
  ticket_ip = 0;
  return_code = error_none;
}
check_other allow_non_rev p size ip h none =
    if read_le 4 p 0 == steam_signature
    then check_wrapper p size h
    else unknown_client allow_non_rev ip h

-- What the handle of a ticket of at least 8 bytes is filled with.
unfoldable pub check_ticket : Bool → Memory → ℕ → ℕ → Handle
check_ticket allow_non_rev p size ip =
    let h = record zero_handle { ip = ip } in
    if read_le 4 p 0 == rev_signature
    then check_rev p size h
    else check_other allow_non_rev p size ip h (validate_classic (some p) size).1

-- A table, the handle for the caller and the code that is returned.
abbrev pub Started : Type 0
Started = Table × ℕ × ℕ

unfoldable pub start_own : Table → Bool → Memory → ℕ → ℕ → ℕ → Started
start_own t allow_non_rev p size ip address =
    if ltb size 8
    then (t, inactive, error_unknown)
    else (t ++ (address, check_ticket allow_non_rev p size ip) ∷ [], address, error_not_finished)

-- `SteamStartValidatingUserIDTicket`; of the original library, its code and its handle.
unfoldable pub start_validating : Table → Option (ℕ × ℕ) → Bool → Memory → ℕ → ℕ → ℕ → Started
start_validating t none allow_non_rev p size ip address =
    start_own t allow_non_rev p size ip address
start_validating t (some (code, handle)) allow_non_rev p size ip address =
    if code == error_none || code == error_not_finished
    then (
      t ++ (address, record zero_handle { client_type = legit; legit_handle = handle }) ∷ [],
      address,
      code,
    )
    else start_own t allow_non_rev p size ip address

-- `SteamStartValidatingNewValveCDKey`
unfoldable pub start_validating_cd_key : Table → Option (ℕ × ℕ) → ℕ → Started
start_validating_cd_key t none address = (t, inactive, error_unknown)
start_validating_cd_key t (some (code, handle)) address =
    if code == error_none || code == error_not_finished
    then (
      t ++ (address, record zero_handle { client_type = legit; legit_handle = handle }) ∷ [],
      address,
      code,
    )
    else (t, inactive, error_unknown)

-- What a validation answers: the code, and what is written through each pointer.
pub record Verdict : Type 0 where
  pub code : ℕ
  pub user : Option GlobalUserId
  pub client_ip : Option ℕ
  pub token_size : Option ℕ

unfoldable pub only_code : ℕ → Verdict
only_code code = record { code = code; user = none; client_ip = none; token_size = none }

unfoldable pub user_of : Handle → GlobalUserId
user_of h = elim h.client_type [
  | rev ↦ convert_to_steam2 h.steam3_id
  | legit_wrapper ↦ h.steam2_id
  | legit ↦ convert_to_steam2 h.steam3_id
  | unknown ↦ convert_to_steam2 h.steam3_id
]

unfoldable pub own_verdict : Handle → Verdict
own_verdict h = if not (h.return_code == error_none) then only_code h.return_code else record {
  code = error_none;
  user = some (user_of h);
  client_ip = some h.ticket_ip;
  token_size = some 0;
}

unfoldable pub is_legit : ClientType → Bool
is_legit legit = true
is_legit _ = false

unfoldable pub verdict_of : Option Verdict → Handle → Verdict
verdict_of none h = own_verdict h
verdict_of (some original) h = if is_legit h.client_type then original else own_verdict h

-- The handle at an address.
unfoldable pub handle_at : ℕ → Table → Option Handle
handle_at a [] = none
handle_at a ((b, h) ∷ t) = let rest = handle_at a t in if b == a then some h else rest

-- `SteamProcessOngoingUserIDTicketValidation` with every optional place given.
unfoldable pub process_ongoing : Table → Option Verdict → ℕ → Option Verdict
process_ongoing t original handle =
    if handle == inactive
    then some (only_code error_nothing_to_do)
    else elim (handle_at handle t) [ none ↦ none | some h ↦ some (verdict_of original h) ]

-- `std::find`, then `delete` and `erase`.
unfoldable pub erase_handle : ℕ → Table → Table
erase_handle a [] = []
erase_handle a ((b, h) ∷ t) = let rest = erase_handle a t in if b == a then t else (b, h) ∷ rest

-- `SteamAbortOngoingUserIDTicketValidation`, on the table.
unfoldable pub abort_ongoing : Table → ℕ → Table
abort_ongoing t handle = if handle == inactive then t else erase_handle handle t

-- `SteamShutdownUserIDTicketValidator`: the table and the code.
unfoldable pub shutdown_validator : Table → Option ℕ → Table × ℕ
shutdown_validator t none = ([], error_none)
shutdown_validator t (some code) = ([], code)
