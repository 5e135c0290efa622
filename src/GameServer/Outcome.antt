-- ===== src/GameServer/Outcome.antt =====
-- `GSSendSteam2UserConnect` as a whole, when no other thread comes between its sections.
use revive_emu.Base.{
  ℕ, ◌+◌, ◌≤◌, ◌<◌, ◌≡◌, ◌⊎◌, inl, inr, refl, sym, ◌∙◌, subst, Bool, true, false, Option, none,
  some, ◌==◌, leb, Bool-cases, Option-cases, arith,
}
use revive_emu.Base.Bytes.{Memory}
use revive_emu.Base.Lists.{length}
use revive_emu.Base.Map.{find}
use revive_emu.SteamId.{convert_to_uint64}
use revive_emu.Auth.Ticket.{Identity, TicketResult, valid, parse_and_validate}
use revive_emu.Runtime.{RuntimeState, Session, max_queued_callbacks, max_steam2_sessions}
use revive_emu.Sessions.Moves.{complete_present}
use revive_emu.Sessions.{Attempt, reserve, begin_steam2_auth, abort_steam2_auth, complete_session}
use revive_emu.GameServer.{
  register_steam2_user, finish_connect, is_accepted, send_steam2_user_connect,
}
use revive_emu.GameServer.Reserved.{
  reserved_state, counted, connect_new, abort_reserved, conflict_of, accepted_new,
  register_new_conflict, register_new_clear,
}

-- How the call ends for an account with no session.
abbrev pub Connects : RuntimeState → ℕ → Option Memory → ℕ → RuntimeState × Bool → Type 0
Connects s account key len r =
    (((r.0 ≡ s) ⊎ (r.0 ≡ counted s)) × (r.1 ≡ false))
    ⊎ ((identity : Identity) × (parse_and_validate key len ≡ (valid, some identity))
        × (length s.steam2_users < max_steam2_sessions)
        × (conflict_of s account identity ≡ none)
        × (length s.callbacks + 2 ≤ max_queued_callbacks)
        × (r ≡ (accepted_new s account identity, true)))

finish_new :
    (s : RuntimeState) (account : ℕ) (key : Option Memory) (len : ℕ)
    (p : TicketResult × Option Identity)
    → find account s.steam2_users ≡ none
    → length s.steam2_users < max_steam2_sessions
    → parse_and_validate key len ≡ p
    → Connects s account key len
        (finish_connect (reserved_state s account) account (reserve s account).1 p)
unfolding finish_connect is_accepted
finish_new s account key len (valid, some identity) e room parsed =
    elim (Option-cases (conflict_of s account identity)) [
      | inr (r, clash) ↦
          let done = register_new_conflict s account identity r e clash in
          inl (inr (ground (arith, done)), ground (arith, done))
      | inl clear ↦
          let done = register_new_clear s account identity e clear in
          elim (Bool-cases (leb (length s.callbacks + 2) max_queued_callbacks)) [
            | inl fits ↦ inr (identity, parsed, room, clear, ground arith, ground (arith, done))
            | inr full ↦ inl (inr (ground (arith, done)), ground (arith, done))
          ]
    ]
finish_new s account key len (valid, none) e room parsed =
    inl (inr (abort_reserved s account e), refl)
finish_new s account key len (_, _) e room parsed = inl (inr (abort_reserved s account e), refl)

-- For an account with no session the call is all or nothing: either it answers false and the state
-- is as before, up to the counter of generations; or it answers true, the ticket was valid, there
-- was room for a session, no account was bound to the id, the queue had room for two, and the
-- state is the accepted one.
pub send_steam2_user_connect_cases :
    (s : RuntimeState) (account : ℕ) (key : Option Memory) (len : ℕ)
    → find account s.steam2_users ≡ none
    → Connects s account key len (send_steam2_user_connect s account key len)
send_steam2_user_connect_cases s account key len e =
    elim (Bool-cases (leb max_steam2_sessions (length s.steam2_users))) [
      | inl full ↦
          subst (Connects s account key len) (sym (connect_new s account key len e ∙ rw full refl))
            (inl (inl refl, refl))
      | inr room ↦
          subst (Connects s account key len) (sym (connect_new s account key len e ∙ rw room refl))
            (finish_new s account key len (parse_and_validate key len) e (ground arith) refl)
    ]

pub send_steam2_user_connect_accepts :
    (s : RuntimeState) (account : ℕ) (key : Option Memory) (len : ℕ) (identity : Identity)
    → find account s.steam2_users ≡ none
    → parse_and_validate key len ≡ (valid, some identity)
    → length s.steam2_users < max_steam2_sessions
    → conflict_of s account identity ≡ none
    → length s.callbacks + 2 ≤ max_queued_callbacks
    → send_steam2_user_connect s account key len ≡ (accepted_new s account identity, true)
unfolding finish_connect is_accepted
send_steam2_user_connect_accepts s account key len identity e parsed room clear fits =
    ground (
      arith,
      connect_new s account key len e,
      parsed,
      register_new_clear s account identity e clear,
    )

abbrev same_id : Session → Identity → Bool
same_id session identity = convert_to_uint64 session.steam_id == convert_to_uint64 identity.steam_id

-- What a repeated connect answers, by the ticket.
abbrev pub repeat_answer : Session → TicketResult × Option Identity → Bool
repeat_answer session (valid, some identity) = same_id session identity
repeat_answer session (_, _) = false

finish_bound :
    (s : RuntimeState) (account : ℕ) (attempt : Attempt) (session : Session)
    (p : TicketResult × Option Identity)
    → find account s.steam2_users ≡ some session
    → session.identity_bound ≡ true
    → session.generation ≡ attempt.generation
    → attempt.created_reservation ≡ false
    → finish_connect s account attempt p ≡ (s, repeat_answer session p)
unfolding finish_connect register_steam2_user complete_session abort_steam2_auth is_accepted
finish_bound s account attempt session (valid, some identity) e b g c =
    ground (arith, complete_present s account attempt identity session e)
finish_bound s account attempt session (valid, none) e b g c = ground arith
finish_bound s account attempt session (_, _) e b g c = ground arith

-- A second connect of an account that is bound to an id changes nothing at all, whatever the
-- ticket; it answers true exactly if the ticket is valid and names the same id.
pub send_steam2_user_connect_again :
    (s : RuntimeState) (account : ℕ) (key : Option Memory) (len : ℕ) (session : Session)
    → find account s.steam2_users ≡ some session
    → session.identity_bound ≡ true
    → send_steam2_user_connect s account key len
      ≡ (s, repeat_answer session (parse_and_validate key len))
unfolding send_steam2_user_connect begin_steam2_auth
send_steam2_user_connect_again s account key len session e b =
    let attempt : Attempt = record {
      generation = session.generation;
      created_reservation = false;
      capacity_exceeded = false;
    } in
    ground
      (arith, finish_bound s account attempt session (parse_and_validate key len) e b refl refl)
