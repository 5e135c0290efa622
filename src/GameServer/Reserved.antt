-- ===== src/GameServer/Reserved.antt =====
-- The reservation that `GSSendSteam2UserConnect` makes for an account with no session: its abort, and
-- the registration of a ticket on it.
use revive_emu.Base.{
  ℕ, ◌+◌, ◌≡◌, inl, inr, refl, ◌∙◌, false, Option, none, some, leb, if◌then◌else◌, arith,
}
use revive_emu.Base.Bytes.{Memory}
use revive_emu.Base.Lists.{length}
use revive_emu.Base.Map.{find, find-insert, erase-insert}
use revive_emu.SteamId.{convert_to_uint64}
use revive_emu.Auth.Ticket.{Identity, parse_and_validate}
use revive_emu.Runtime.{
  RuntimeState, Session, blank_session, max_queued_callbacks, max_steam2_sessions,
}
use revive_emu.Lifecycle.Steps.{erased}
use revive_emu.Lifecycle.Steps.{remove_client_present}
use revive_emu.Sessions.Table.{IsStaged}
use revive_emu.Sessions.Moves.{find_conflict-insert}
use revive_emu.Sessions.{
  Registration, accepted, callback_queue_full, next_generation, reserve, begin_steam2_auth,
  find_conflict, abort_steam2_auth,
}
use revive_emu.GameServer.Connect.{accepted_state, register_conflict, register_clear}
use revive_emu.GameServer.{
  register_steam2_user, finish_connect, is_accepted, send_steam2_user_connect,
}

-- The reservation that `BeginSteam2AuthLocked` makes for an account with no session.
abbrev pub reserved_state : RuntimeState → ℕ → RuntimeState
reserved_state s account = (reserve s account).0

abbrev pub reserved_session : RuntimeState → Session
reserved_session s = record blank_session { generation = next_generation s.next_client_generation }

pub find-reserved :
    (s : RuntimeState) (account : ℕ)
    → find account (reserved_state s account).steam2_users ≡ some (reserved_session s)
unfolding reserve
find-reserved s account =
    ground (arith, find-insert account account (reserved_session s) s.steam2_users)

pub IsStaged-reserved :
    (s : RuntimeState) (account : ℕ) (x : Session)
    → find account (reserved_state s account).steam2_users ≡ some x
    → IsStaged x
IsStaged-reserved s account x e =
    let is : x ≡ reserved_session s = cc (find-reserved s account) in rw is (inl (refl, refl))

-- The state as it was, with the generation counter moved on.
abbrev pub counted : RuntimeState → RuntimeState
counted s = record s { next_client_generation = next_generation s.next_client_generation }

pub erased-reserved :
    (s : RuntimeState) (account : ℕ)
    → find account s.steam2_users ≡ none
    → erased (reserved_state s account) account ≡ counted s
unfolding reserve
erased-reserved s account e =
    ground (arith, erase-insert account (reserved_session s) s.steam2_users e)

-- For an account with no session the call runs on the reservation, if there is room for one.
pub connect_new :
    (s : RuntimeState) (account : ℕ) (key : Option Memory) (len : ℕ)
    → find account s.steam2_users ≡ none
    → send_steam2_user_connect s account key len ≡ (
        if leb max_steam2_sessions (length s.steam2_users)
        then (s, false)
        else finish_connect
            (reserved_state s account)
            account
            (reserve s account).1
            (parse_and_validate key len))
unfolding send_steam2_user_connect begin_steam2_auth reserve
connect_new s account key len e = ground arith

-- The abort of the attempt's own reservation takes it back.
pub abort_reserved :
    (s : RuntimeState) (account : ℕ)
    → find account s.steam2_users ≡ none
    → abort_steam2_auth (reserved_state s account) account (reserve s account).1 ≡ counted s
unfolding abort_steam2_auth reserve
abort_reserved s account e = ground (
  arith,
  find-reserved s account,
  remove_client_present (reserved_state s account) account (reserved_session s).generation
      (reserved_session s) (find-reserved s account) (λ l. cc) (inr refl),
  erased-reserved s account e,
)

-- A free reservation is seen by no other account.
pub conflict_reserved :
    (s : RuntimeState) (account : ℕ) (identity : Identity)
    → find_conflict account
        (convert_to_uint64 identity.steam_id)
        identity.fingerprint
        (reserved_state s account).steam2_users
      ≡ find_conflict account
          (convert_to_uint64 identity.steam_id)
          identity.fingerprint
          s.steam2_users
unfolding reserve
conflict_reserved s account identity =
    find_conflict-insert account (convert_to_uint64 identity.steam_id) identity.fingerprint
      (reserved_session s) s.steam2_users refl

-- The registration of a ticket on the fresh reservation, and the search for a conflict.
abbrev pub register_new : RuntimeState → ℕ → Identity → RuntimeState × Registration
register_new s account identity =
    register_steam2_user (reserved_state s account) account (reserve s account).1 identity

abbrev pub conflict_of : RuntimeState → ℕ → Identity → Option Registration
conflict_of s account identity =
    find_conflict account (convert_to_uint64 identity.steam_id) identity.fingerprint s.steam2_users

abbrev pub accepted_new : RuntimeState → ℕ → Identity → RuntimeState
accepted_new s account identity =
    accepted_state (reserved_state s account) account (reserve s account).1 identity
      (reserved_session s)

pub register_new_conflict :
    (s : RuntimeState) (account : ℕ) (identity : Identity) (r : Registration)
    → find account s.steam2_users ≡ none
    → conflict_of s account identity ≡ some r
    → (register_new s account identity ≡ (counted s, r)) × (is_accepted r ≡ false)
unfolding reserve
register_new_conflict s account identity r e clash =
    let done =
      register_conflict (reserved_state s account) account (reserve s account).1 identity
        (reserved_session s) r (find-reserved s account) (inl (refl, refl)) refl refl
        (conflict_reserved s account identity ∙ clash) in
    (ground (arith, done.0, erased-reserved s account e), done.1)

pub register_new_clear :
    (s : RuntimeState) (account : ℕ) (identity : Identity)
    → find account s.steam2_users ≡ none
    → conflict_of s account identity ≡ none
    → register_new s account identity ≡ (
        if leb (length s.callbacks + 2) max_queued_callbacks
        then (accepted_new s account identity, accepted)
        else (counted s, callback_queue_full))
unfolding reserve
register_new_clear s account identity e clear = ground (
  arith,
  register_clear (reserved_state s account) account (reserve s account).1 identity
      (reserved_session s) (find-reserved s account) (inl (refl, refl)) refl refl
      (conflict_reserved s account identity ∙ clear),
  erased-reserved s account e,
)
