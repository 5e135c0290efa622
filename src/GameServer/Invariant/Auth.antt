-- ===== src/GameServer/Invariant/Auth.antt =====
-- The invariant where a session is begun, finished and ended.
use revive_emu.Base.{
  ℕ, ◌+◌, ◌≤◌, ◌<◌, ◌^◌, ◌≡◌, ◌≢◌, inl, inr, refl, sym, ◌∙◌, ap, subst, true, false, Option, none,
  some, List, [], ◌∷◌, ◌++◌, leb, Bool-cases, Option-cases, arith,
}
use revive_emu.Base.Lists.{length, length-append}
use revive_emu.Base.Map.{find, find-erase, find-insert-some, find-update-some}
use revive_emu.SteamId.{SteamId, convert_to_uint64}
use revive_emu.Auth.Ticket.{Identity, TicketResult, valid}
use revive_emu.Runtime.{
  RuntimeState, Session, QueuedCallback, new, max_queued_callbacks, max_steam2_sessions,
}
use revive_emu.Lifecycle.Steps.{erased}
use revive_emu.Sessions.Table.{insert-IsTable, update-IsTable}
use revive_emu.Sessions.Moves.{registered, abort_cases, find_conflict-none}
use revive_emu.Sessions.{
  Attempt, next_generation, reserve, begin_steam2_auth, abort_steam2_auth, bind_identity,
}
use revive_emu.Callbacks.Queue.{
  accept_callback, approve_callback, has_pair-append, has_approve-append, has_pair-append_new,
  has_pair,
}
use revive_emu.GameServer.Connect.{accepted_state, register_cases}
use revive_emu.GameServer.Leave.{left_state, remove_user_connect_cases, send_user_disconnect_cases}
use revive_emu.GameServer.Invariant.Base.{Inv, erased-Inv, pending-Inv}
use revive_emu.GameServer.{
  register_steam2_user, finish_connect, remove_user_connect, send_user_disconnect,
}

-- The counter has not come round: 2 ^ 64 - 1 reservations have not been made.
abbrev pub HasGeneration : RuntimeState → Type 0
HasGeneration s = s.next_client_generation + 1 < 2 ^ 64

reserve-Inv :
    (s : RuntimeState) (account : ℕ)
    → length s.steam2_users < max_steam2_sessions
    → HasGeneration s
    → Inv s
    → Inv (reserve s account).0
unfolding reserve next_generation
reserve-Inv s account room more v =
    let g = next_generation s.next_client_generation in
    let x : Session = record {
      steam_id = record { account_id = 0; account_instance = 0; account_type = 0; universe = 0 };
      ticket_fingerprint = 0;
      ticket_type = 0;
      generation = g;
      lifecycle = new;
      identity_bound = false;
    } in
    record {
      table =
          insert-IsTable s.steam2_users s.next_client_generation v.table account g x room
            (ground arith) refl refl refl;
      queue_room = v.queue_room;
      announced = λ k y e. elim (find-insert-some k account x s.steam2_users e) [
        | inl (at, is) ↦ (λ l. cc, λ l. cc)
        | inr (off, old) ↦ v.announced k y old
      ];
    }

-- Beginning an authentication keeps the invariant while the counter has not come round.
pub begin-Inv :
    (s : RuntimeState) (account : ℕ) → HasGeneration s → Inv s → Inv (begin_steam2_auth s account).0
unfolding begin_steam2_auth
begin-Inv s account more v = elim (Option-cases (find account s.steam2_users)) [
  | inr (x, e) ↦ rw (e, begin_steam2_auth) v
  | inl e ↦ elim (Bool-cases (leb max_steam2_sessions (length s.steam2_users))) [
    | inl full ↦ rw (e, begin_steam2_auth) (rw full v)
    | inr room ↦ rw (e, begin_steam2_auth) (rw room (reserve-Inv s account (ground arith) more v))
  ]
]

accepted-Inv :
    (s : RuntimeState) (account : ℕ) (attempt : Attempt) (identity : Identity) (session : Session)
    → find account s.steam2_users ≡ some session
    → session.generation ≡ attempt.generation
    → length s.callbacks + 2 ≤ max_queued_callbacks
    → ((j : ℕ) (y : Session)
        → j ≢ account
        → find j s.steam2_users ≡ some y
        → y.identity_bound ≡ true
        → convert_to_uint64 y.steam_id ≢ convert_to_uint64 identity.steam_id)
    → Inv s
    → Inv (accepted_state s account attempt identity session)
unfolding bind_identity
accepted-Inv s account attempt identity session e g room alone v =
    let x : Session = registered session identity in
    let pair : List QueuedCallback =
      accept_callback account identity.steam_id attempt.generation
      ∷ approve_callback account identity.steam_id attempt.generation
      ∷ [] in
    record {
      table =
          update-IsTable s.steam2_users s.next_client_generation v.table account x session e refl
            (inr (refl, inl refl)) (λ b. alone);
      queue_room = omega (arith, length-append s.callbacks pair);
      announced = λ k y f. elim (find-update-some k account x session s.steam2_users e f) [
        | inl (at, is) ↦ (
          λ l.
              subst (λ a. has_pair a y.generation (s.callbacks ++ pair) ≡ true) (sym at)
                (subst (λ h. has_pair account h (s.callbacks ++ pair) ≡ true)
                  (sym (ap (λ (z : Session). z.generation) is ∙ g))
                  (has_pair-append_new account attempt.generation identity.steam_id s.callbacks)),
          λ l. cc,
        )
        | inr (off, old) ↦ (
          λ l. has_pair-append k y.generation s.callbacks pair ((v.announced k y old).0 l),
          λ l. has_approve-append k y.generation s.callbacks pair ((v.announced k y old).1 l),
        )
      ];
    }

pub register-Inv :
    (s : RuntimeState) (account : ℕ) (attempt : Attempt) (identity : Identity)
    → Inv s
    → Inv (register_steam2_user s account attempt identity).0
register-Inv s account attempt identity v =
    elim (register_cases s account attempt identity (λ x e. v.table.staged account x e)) [
      | inl (same, _) ↦ rw same v
      | inr (inl (gone, _, _)) ↦ rw gone (erased-Inv s account v)
      | inr (inr (session, e, g, b, clear, room, done)) ↦ rw done (
          accepted-Inv s account attempt identity session e g room
            (λ j y off f c.
              find_conflict-none account (convert_to_uint64 identity.steam_id) identity.fingerprint
                s.steam2_users j y clear off f c)
            v)
    ]

abort-Inv :
    (s : RuntimeState) (account : ℕ) (attempt : Attempt)
    → Inv s
    → Inv (abort_steam2_auth s account attempt)
abort-Inv s account attempt v =
    elim (abort_cases s account attempt (λ x e. v.table.staged account x e)) [
      | inl same ↦ rw same v
      | inr gone ↦ rw gone (erased-Inv s account v)
    ]

-- Finishing an authentication keeps the invariant, on any attempt and any outcome of the ticket.
pub finish-Inv :
    (s : RuntimeState) (account : ℕ) (attempt : Attempt) (p : TicketResult × Option Identity)
    → Inv s
    → Inv (finish_connect s account attempt p).0
unfolding finish_connect
finish-Inv s account attempt (valid, some identity) v = register-Inv s account attempt identity v
finish-Inv s account attempt (valid, none) v = abort-Inv s account attempt v
finish-Inv s account attempt (_, _) v = abort-Inv s account attempt v

left-Inv :
    (s : RuntimeState) (account generation : ℕ) → Inv s → Inv (left_state s account generation)
left-Inv s account generation v =
    pending-Inv (erased s account) account generation
      (ground (arith, find-erase account account s.steam2_users)) (erased-Inv s account v)

-- So does a removal,
pub remove_user_connect-Inv :
    (s : RuntimeState) (account : ℕ) → Inv s → Inv (remove_user_connect s account)
remove_user_connect-Inv s account v =
    elim (remove_user_connect_cases s account (λ x e. v.table.staged account x e)) [
      | inl (absent, done) ↦ rw done (pending-Inv s account 0 absent v)
      | inr (x, e, done) ↦ rw done (left-Inv s account x.generation v)
    ]

-- and a disconnect.
pub send_user_disconnect-Inv :
    (s : RuntimeState) (id : SteamId) (account : ℕ)
    → Inv s
    → Inv (send_user_disconnect s id account).0
send_user_disconnect-Inv s id account v =
    elim (send_user_disconnect_cases s id account (λ x e. v.table.staged account x e)) [
      | inl (absent, done) ↦ rw done v
      | inr (inl (x, e, b, d, done)) ↦ rw done v
      | inr (inr (x, e, why, done)) ↦ rw done (left-Inv s account x.generation v)
    ]
