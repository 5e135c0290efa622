-- ===== src/GameServer.antt =====
-- Steam/steamclient_legacy/LegacySteamInterfaces.cpp, `CSteamGameServer002`: the calls of the game
-- server. Each function here is one critical section of the mutex, or a call that runs its
-- sections in turn with no other thread between them; `History` lets threads in between.
-- Logging and the ABI trace are left out.
pub mod Connect
pub mod Reserved
pub mod Outcome
pub mod Leave
pub mod Invariant
pub mod History
pub mod Drain
mod Tests
use revive_emu.Base.{
  ℕ, ◌+◌, ◌*◌, ◌%◌, ◌^◌, Bool, true, false, not, ◌&&◌, ◌||◌, Option, none, some, List, [], ◌∷◌,
  bit_and, bit_or, ◌==◌, ltb, if◌then◌else◌,
}
use revive_emu.Base.Bytes.{Memory, u16_mod, u32_mod}
use revive_emu.SteamId.{SteamId, instanced_set}
use revive_emu.SteamId.AccountType
use revive_emu.SteamId.Universe
use revive_emu.Auth.Ticket.{TicketResult, Identity, parse_and_validate}
use revive_emu.Auth.Ticket
use revive_emu.Runtime.{RuntimeState, callback_servers_connected, make_server_id}
use revive_emu.Sessions.{
  Attempt, Registration, Disconnection, accepted, idempotent, account_conflict, active_replay,
  duplicate_steam_id, auth_canceled, callback_queue_full, removed, canceled_pending_auth,
  already_absent, identity_mismatch, begin_steam2_auth, complete_steam2_user, abort_steam2_auth,
  remove_steam2_user, disconnect_steam2_user,
}
use revive_emu.Callbacks.{
  queue_callback_locked, queue_client_approve, queue_steam2_auth_callbacks,
  remove_pending_auth_callbacks,
}

-- `LogOn`: the answer of the queue is not looked at.
unfoldable pub log_on : RuntimeState → RuntimeState
log_on s =
    if not s.logged_on
    then (queue_callback_locked (record s { logged_on = true }) callback_servers_connected none 0 0
        0 false 0).0
    else s

-- `LogOff`
unfoldable pub log_off : RuntimeState → RuntimeState
log_off s = record s { logged_on = false }

abbrev or_zero : Option ℕ → ℕ
or_zero none = 0
or_zero (some g) = g

-- The second critical section of `GSSendSteam2UserConnect` after a ticket that passed: identity and
-- callbacks in one transaction.
unfoldable pub register_steam2_user :
    RuntimeState → ℕ → Attempt → Identity → RuntimeState × Registration
register_steam2_user s account attempt identity =
    let (s1, registration, generation) = complete_steam2_user s account attempt identity in
    elim registration [
      | accepted ↦
          (let (s2, queued) =
              queue_steam2_auth_callbacks s1 account identity.steam_id (or_zero generation) in
            if not queued
            then ((remove_steam2_user s2 account).0, callback_queue_full)
            else (s2, accepted))
      | idempotent ↦ (s1, idempotent)
      | account_conflict ↦ (s1, account_conflict)
      | active_replay ↦ (s1, active_replay)
      | duplicate_steam_id ↦ (s1, duplicate_steam_id)
      | auth_canceled ↦ (s1, auth_canceled)
      | callback_queue_full ↦ (s1, callback_queue_full)
    ]

-- What the caller is told.
unfoldable pub is_accepted : Registration → Bool
is_accepted accepted = true
is_accepted idempotent = true
is_accepted _ = false

-- The second critical section, whichever it is, on the outcome of the ticket check.
unfoldable pub finish_connect :
    RuntimeState → ℕ → Attempt → TicketResult × Option Identity → RuntimeState × Bool
unfolding is_accepted
finish_connect s account attempt (Ticket.valid, some identity) =
    let (s', registration) = register_steam2_user s account attempt identity in
    (s', is_accepted registration)
finish_connect s account attempt (_, _) = (abort_steam2_auth s account attempt, false)

-- `GSSendSteam2UserConnect`
unfoldable pub send_steam2_user_connect : RuntimeState → ℕ → Option Memory → ℕ → RuntimeState × Bool
send_steam2_user_connect s account raw_key raw_key_len =
    let (s1, attempt) = begin_steam2_auth s account in
    if attempt.capacity_exceeded
    then (s1, false)
    else finish_connect s1 account attempt (parse_and_validate raw_key raw_key_len)

-- `GSSendSteam3UserConnect`
unfoldable pub send_steam3_user_connect : RuntimeState → SteamId → RuntimeState × Bool
send_steam3_user_connect s steam_id = queue_client_approve s steam_id

-- `GSRemoveUserConnect`, which always answers true.
unfoldable pub remove_user_connect : RuntimeState → ℕ → RuntimeState
remove_user_connect s account =
    let (s1, erased, generation) = remove_steam2_user s account in
    (remove_pending_auth_callbacks s1 account (or_zero generation)).0

-- `GSSendUserDisconnect`
unfoldable pub send_user_disconnect : RuntimeState → SteamId → ℕ → RuntimeState × Bool
send_user_disconnect s steam_id account =
    let (s1, result, generation) = disconnect_steam2_user s account steam_id in
    elim result [
      | removed ↦ ((remove_pending_auth_callbacks s1 account (or_zero generation)).0, true)
      | canceled_pending_auth ↦
          ((remove_pending_auth_callbacks s1 account (or_zero generation)).0, true)
      | already_absent ↦ (s1, true)
      | identity_mismatch ↦ (s1, false)
    ]

-- `SetLocalIPBinding` of `CSteamClient006`
unfoldable pub set_local_ip_binding : RuntimeState → ℕ → ℕ → RuntimeState
set_local_ip_binding s ip port = record s { local_ip = ip; local_port = port }

-- The section of `GSSetServerType` and `GSSetServerType2`: 0 leaves a field as it was.
unfoldable pub set_server_type : RuntimeState → ℕ → ℕ → RuntimeState
set_server_type s game_ip game_port = record s {
  local_ip = if game_ip == 0 then s.local_ip else game_ip;
  local_port = if game_port == 0 then s.local_port else game_port % u16_mod;
}

-- `GetSteamID`
unfoldable pub get_steam_id : RuntimeState → SteamId
get_steam_id s = make_server_id s

-- `GSCreateUnauthenticatedUser` with a place for the id.
unfoldable pub create_unauthenticated_user : RuntimeState → RuntimeState × SteamId
create_unauthenticated_user s = (
  record s { bot_counter = (s.bot_counter + 1) % u32_mod },
  instanced_set (bit_or 0xf0000000 (bit_and s.bot_counter 0x0fffffff)) 1 Universe.public
      AccountType.anon_user,
)

-- g_TicketKey (Steam/steam/RevCommon.h)
abbrev pub ticket_key : List ℕ
ticket_key =
    0x30 ∷ 0x81 ∷ 0x9d ∷ 0x30 ∷ 0x0d ∷ 0x06 ∷ 0x09 ∷ 0x2a ∷ 0x86 ∷ 0x48 ∷ 0x86 ∷ 0xf7 ∷ 0x0d ∷ 0x01
    ∷ 0x01 ∷ 0x01 ∷ 0x05 ∷ 0x00 ∷ 0x03 ∷ 0x81 ∷ 0x8b ∷ 0x00 ∷ 0x30 ∷ 0x81 ∷ 0x87 ∷ 0x02 ∷ 0x81
    ∷ 0x81 ∷ 0x00 ∷ 0xc1 ∷ 0x7e ∷ 0xe4 ∷ 0xcc ∷ 0x16 ∷ 0x61 ∷ 0xb4 ∷ 0x19 ∷ 0x1f ∷ 0x6a ∷ 0x88
    ∷ 0xda ∷ 0x8d ∷ 0xc9 ∷ 0x5f ∷ 0x68 ∷ 0x32 ∷ 0x53 ∷ 0x00 ∷ 0x7f ∷ 0xf9 ∷ 0x46 ∷ 0x5b ∷ 0x89
    ∷ 0x10 ∷ 0xc6 ∷ 0xcb ∷ 0x30 ∷ 0xbd ∷ 0x7b ∷ 0x95 ∷ 0xd6 ∷ 0xb4 ∷ 0xba ∷ 0x52 ∷ 0xf1 ∷ 0x77
    ∷ 0x1f ∷ 0x41 ∷ 0x2e ∷ 0x10 ∷ 0x13 ∷ 0xf2 ∷ 0x12 ∷ 0x6e ∷ 0x88 ∷ 0x45 ∷ 0x4d ∷ 0x97 ∷ 0x57
    ∷ 0x5c ∷ 0x78 ∷ 0x76 ∷ 0x44 ∷ 0xbe ∷ 0xd2 ∷ 0xeb ∷ 0x4a ∷ 0xf2 ∷ 0xd9 ∷ 0x04 ∷ 0x76 ∷ 0x72
    ∷ 0x7d ∷ 0xa2 ∷ 0x12 ∷ 0xb2 ∷ 0xaf ∷ 0xb3 ∷ 0x3e ∷ 0x60 ∷ 0xe4 ∷ 0xe1 ∷ 0x17 ∷ 0x13 ∷ 0x78
    ∷ 0xca ∷ 0x9f ∷ 0x06 ∷ 0x08 ∷ 0x19 ∷ 0x76 ∷ 0xef ∷ 0x89 ∷ 0x98 ∷ 0x5a ∷ 0xda ∷ 0xb3 ∷ 0x03
    ∷ 0xe8 ∷ 0x51 ∷ 0x33 ∷ 0xb2 ∷ 0x34 ∷ 0x28 ∷ 0xa0 ∷ 0x96 ∷ 0x1f ∷ 0x66 ∷ 0xe4 ∷ 0x99 ∷ 0xa2
    ∷ 0x86 ∷ 0x97 ∷ 0xe6 ∷ 0xef ∷ 0xe1 ∷ 0x5e ∷ 0x81 ∷ 0xaf ∷ 0xe8 ∷ 0x38 ∷ 0x02 ∷ 0xce ∷ 0x61
    ∷ 0x54 ∷ 0x7a ∷ 0xc5 ∷ 0x95 ∷ 0x4b ∷ 0x87 ∷ 0x6d ∷ 0xa2 ∷ 0x46 ∷ 0xdf ∷ 0x19 ∷ 0x57 ∷ 0xe9
    ∷ 0x02 ∷ 0x01 ∷ 0x11 ∷ []

-- `GSGetSteam2GetEncryptionKeyToSendToNewClient`: the answer, what is written to `key`, and what is
-- written to `*keySize`.
unfoldable pub get_encryption_key : Bool → Bool → ℕ → Bool × Option (List ℕ) × Option ℕ
get_encryption_key has_key has_size max_size =
    if not has_key || not has_size || ltb max_size 160
    then (false, none, if has_size then some 0 else none)
    else (true, some ticket_key, some 160)

-- `SteamGetEncryptionKeyToSendToNewClient` (Steam/steam/SteamUserIDValidation.h) without the
-- original library.
unfoldable pub get_encryption_key_to_send : List ℕ × ℕ
get_encryption_key_to_send = (ticket_key, 160)
