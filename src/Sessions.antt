-- ===== src/Sessions.antt =====
-- Steam/steamclient_legacy/LegacySteamAuth.h and .cpp: the Steam2 authentication of an account, in
-- the three calls that the game server makes under the mutex (begin, then complete or abort), and
-- the two ways a session ends. An optional out-parameter is an `Option` in the result.
pub mod Table
pub mod Moves
use revive_emu.Base.{
  ℕ, ◌+◌, ◌%◌, ◌^◌, Bool, true, false, not, ◌&&◌, ◌||◌, Option, none, some, List, [], ◌∷◌, ◌==◌,
  leb, if◌then◌else◌,
}
use revive_emu.Base.Bytes.{u64_mod}
use revive_emu.Base.Lists.{length}
use revive_emu.Base.Map.{Map, find, insert, update}
use revive_emu.SteamId.{SteamId, convert_to_uint64}
use revive_emu.Auth.Ticket.{Identity, TicketType, unknown, classic_rev_emu}
use revive_emu.Runtime.{RuntimeState, Session, blank_session, auth_pending, max_steam2_sessions}
use revive_emu.Lifecycle.{transition, remove_client}

-- Steam2RegistrationResult
pub data Registration : Type 0 where
  accepted idempotent account_conflict active_replay duplicate_steam_id : Registration
  auth_canceled callback_queue_full : Registration

-- Steam2DisconnectResult
pub data Disconnection : Type 0 where
  removed canceled_pending_auth already_absent identity_mismatch : Disconnection

-- Steam2AuthAttempt
pub record Attempt : Type 0 where
  pub generation : ℕ
  pub created_reservation : Bool
  pub capacity_exceeded : Bool

-- `++nextClientGeneration`, past 0.
unfoldable pub next_generation : ℕ → ℕ
next_generation g = let g' = (g + 1) % u64_mod in if g' == 0 then (g' + 1) % u64_mod else g'

-- The reservation of a new account.
unfoldable pub reserve : RuntimeState → ℕ → RuntimeState × Attempt
reserve s account =
    let g = next_generation s.next_client_generation in
    (
      record s {
        next_client_generation = g;
        steam2_users = insert account (record blank_session { generation = g }) s.steam2_users;
      },
      record { generation = g; created_reservation = true; capacity_exceeded = false },
    )

-- `BeginSteam2AuthLocked`
unfoldable pub begin_steam2_auth : RuntimeState → ℕ → RuntimeState × Attempt
begin_steam2_auth s account = elim (find account s.steam2_users) [
  | some existing ↦ (
    s,
    record {
      generation = existing.generation;
      created_reservation = false;
      capacity_exceeded = false;
    },
  )
  | none ↦
      if leb max_steam2_sessions (length s.steam2_users)
      then (s, record { generation = 0; created_reservation = false; capacity_exceeded = true })
      else reserve s account
]

-- The loop over the table for another account that is bound to the same id, in the map's order.
unfoldable pub find_conflict : ℕ → ℕ → ℕ → Map Session → Option Registration
find_conflict account steam_id fingerprint [] = none
find_conflict account steam_id fingerprint ((j, session) ∷ m) =
    let rest = find_conflict account steam_id fingerprint m in
    if j == account || not session.identity_bound
    then rest
    else if not (convert_to_uint64 session.steam_id == steam_id)
    then rest
    else if not (fingerprint == 0) && session.ticket_fingerprint == fingerprint
    then some active_replay
    else some duplicate_steam_id

-- `static_cast<uint32>(identity.type)`
unfoldable pub ticket_type_value : TicketType → ℕ
ticket_type_value unknown = 0
ticket_type_value classic_rev_emu = 1

-- The session with the ticket's identity written into it.
unfoldable pub bind_identity : Session → Identity → Session
unfolding ticket_type_value
bind_identity session identity = record session {
  steam_id = identity.steam_id;
  ticket_fingerprint = identity.fingerprint;
  ticket_type = ticket_type_value identity.type_of;
  identity_bound = true;
}

-- The end of `CompleteSteam2UserLocked`: bind the identity and go to AUTH_PENDING.
unfoldable pub register_identity :
    RuntimeState → ℕ → Attempt → Identity → Session → RuntimeState × Registration × Option ℕ
register_identity s account attempt identity session =
    let s1 = record s {
      steam2_users = update account (bind_identity session identity) s.steam2_users;
    } in
    let (s2, done) = transition s1 account attempt.generation auth_pending in
    if not done
    then ((remove_client s2 account attempt.generation).0, auth_canceled, none)
    else (s2, accepted, some attempt.generation)

-- `CompleteSteam2UserLocked` behind the look-up.
unfoldable pub complete_session :
    RuntimeState → ℕ → Attempt → Identity → Session → RuntimeState × Registration × Option ℕ
complete_session s account attempt identity session =
    if not (session.generation == attempt.generation)
    then (s, auth_canceled, none)
    else if session.identity_bound
    then (
      s,
      (if convert_to_uint64 session.steam_id == convert_to_uint64 identity.steam_id
          then idempotent
          else account_conflict),
      some session.generation,
    )
    else elim (find_conflict account (convert_to_uint64 identity.steam_id) identity.fingerprint
        s.steam2_users) [
          | some result ↦ ((remove_client s account attempt.generation).0, result, none)
          | none ↦ register_identity s account attempt identity session
        ]

-- `CompleteSteam2UserLocked`; the last part is what is written to `*sessionGeneration`.
unfoldable pub complete_steam2_user :
    RuntimeState → ℕ → Attempt → Identity → RuntimeState × Registration × Option ℕ
complete_steam2_user s account attempt identity = elim (find account s.steam2_users) [
  | none ↦ (s, auth_canceled, none)
  | some session ↦ complete_session s account attempt identity session
]

-- `AbortSteam2AuthLocked`
unfoldable pub abort_steam2_auth : RuntimeState → ℕ → Attempt → RuntimeState
abort_steam2_auth s account attempt =
    if not attempt.created_reservation then s else elim (find account s.steam2_users) [
      | none ↦ s
      | some session ↦
          if not (session.generation == attempt.generation) || session.identity_bound
          then s
          else (remove_client s account attempt.generation).0
    ]

-- `RemoveSteam2UserLocked`: the count, and what is written to `*removedGeneration`.
unfoldable pub remove_steam2_user : RuntimeState → ℕ → RuntimeState × ℕ × Option ℕ
remove_steam2_user s account = elim (find account s.steam2_users) [
  | none ↦ (s, 0, none)
  | some session ↦
      let (s', count) = remove_client s account session.generation in
      (s', count, some session.generation)
]

-- `DisconnectSteam2UserLocked`: the result, and what is written to `*removedGeneration`.
unfoldable pub disconnect_steam2_user :
    RuntimeState → ℕ → SteamId → RuntimeState × Disconnection × Option ℕ
disconnect_steam2_user s account steam_id = elim (find account s.steam2_users) [
  | none ↦ (s, already_absent, none)
  | some session ↦
      if not session.identity_bound
      then (
        (remove_client s account session.generation).0,
        canceled_pending_auth,
        some session.generation,
      )
      else if not (convert_to_uint64 session.steam_id == convert_to_uint64 steam_id)
      then (s, identity_mismatch, some session.generation)
      else ((remove_client s account session.generation).0, removed, some session.generation)
]
