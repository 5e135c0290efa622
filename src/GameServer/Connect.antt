-- ===== src/GameServer/Connect.antt =====
-- `GSSendSteam2UserConnect`: how the second critical section ends.
use revive_emu.Base.{
  ℕ, ◌+◌, ◌≤◌, ◌≡◌, ◌≢◌, ◌⊎◌, inl, inr, refl, ◌∙◌, false, none, some, [], ◌∷◌, ◌++◌, leb,
  Bool-cases, if◌then◌else◌, arith,
}
use revive_emu.Base.Lists.{length}
use revive_emu.Base.Map.{find, erase-update}
use revive_emu.SteamId.{convert_to_uint64}
use revive_emu.Auth.Ticket.{Identity}
use revive_emu.Runtime.{RuntimeState, Session, max_queued_callbacks}
use revive_emu.Lifecycle.Steps.{erased, find-update_self, remove_client_present}
use revive_emu.Sessions.Table.{IsStaged}
use revive_emu.Sessions.Moves.{
  complete_cases, registered, with_session, remove_steam2_user_present, find_conflict_kind,
  complete_present, IsStaged-not_removed, IsStaged-new, register_identity_lem,
}
use revive_emu.Sessions.{
  Attempt, Registration, accepted, callback_queue_full, find_conflict, bind_identity,
  complete_session, complete_steam2_user,
}
use revive_emu.Callbacks.Queue.{
  accept_callback, approve_callback, with_callbacks, queue_steam2_auth_callbacks_atomic,
}
use revive_emu.GameServer.{register_steam2_user, is_accepted}

-- The state after an accepted registration: the account's session carries the ticket's identity and
-- waits for its callbacks, 205 and 201, which stand at the end of the queue.
abbrev pub accepted_state : RuntimeState → ℕ → Attempt → Identity → Session → RuntimeState
accepted_state s account attempt identity session =
    with_callbacks (with_session s account (registered session identity)) (
      s.callbacks
      ++ accept_callback account identity.steam_id attempt.generation
        ∷ approve_callback account identity.steam_id attempt.generation
        ∷ [])

-- How the registration of a ticket that passed ends: refused or repeated with nothing changed,
-- refused with the account's session dropped, or accepted as a whole.
abbrev pub Registers : RuntimeState → ℕ → Attempt → Identity → RuntimeState × Registration → Type 0
Registers s account attempt identity r =
    ((r.0 ≡ s) × (r.1 ≢ accepted))
    ⊎ ((r.0 ≡ erased s account)
        × (r.1 ≢ accepted)
        × ((x : Session) × (find account s.steam2_users ≡ some x)
            × (x.generation ≡ attempt.generation)
            × (x.identity_bound ≡ false)))
    ⊎ ((session : Session) × (find account s.steam2_users ≡ some session)
        × (session.generation ≡ attempt.generation)
        × (session.identity_bound ≡ false)
        × (find_conflict account (convert_to_uint64 identity.steam_id) identity.fingerprint
              s.steam2_users
            ≡ none)
        × (length s.callbacks + 2 ≤ max_queued_callbacks)
        × (r ≡ (accepted_state s account attempt identity session, accepted)))

not_accepted_kept :
    (s : RuntimeState) (account : ℕ) (attempt : Attempt) (identity : Identity)
    → (complete_steam2_user s account attempt identity).1 ≢ accepted
    → (register_steam2_user s account attempt identity) ≡ (
      (complete_steam2_user s account attempt identity).0,
      (complete_steam2_user s account attempt identity).1,
    )
unfolding register_steam2_user
not_accepted_kept s account attempt identity h = ground arith

accepted_queued :
    (s : RuntimeState) (account : ℕ) (attempt : Attempt) (identity : Identity) (session : Session)
    → find account s.steam2_users ≡ some session
    → complete_steam2_user s account attempt identity
      ≡ (with_session s account (registered session identity), accepted, some attempt.generation)
    → register_steam2_user s account attempt identity ≡ (
        if leb (length s.callbacks + 2) max_queued_callbacks
        then (accepted_state s account attempt identity session, accepted)
        else (erased s account, callback_queue_full))
unfolding register_steam2_user bind_identity
accepted_queued s account attempt identity session e c =
    let new_session : Session = registered session identity in
    let s1 : RuntimeState = with_session s account new_session in
    ground (
      arith,
      c,
      queue_steam2_auth_callbacks_atomic s1 account identity.steam_id attempt.generation,
      remove_steam2_user_present s1 account new_session
          (find-update_self s account session new_session e) (inr (refl, inl refl)),
      erase-update account new_session s.steam2_users,
    )

-- The registration of a ticket that passed, for any attempt, on an account whose session is staged
-- ends in one of three ways: not accepted with nothing changed, not accepted with the attempt's
-- own unbound session dropped, or accepted as a whole, for the session of the attempt's
-- generation, with no other account bound to the id and with both callbacks queued.
pub register_cases :
    (s : RuntimeState) (account : ℕ) (attempt : Attempt) (identity : Identity)
    → ((x : Session) → find account s.steam2_users ≡ some x → IsStaged x)
    → Registers s account attempt identity (register_steam2_user s account attempt identity)
register_cases s account attempt identity t = elim (complete_cases s account attempt identity t) [
  | inl (same, refused) ↦
      rw (not_accepted_kept s account attempt identity refused) (inl (same, refused))
  | inr (inl (dropped, refused, mine)) ↦
      rw (not_accepted_kept s account attempt identity refused) (inr (inl (dropped, refused, mine)))
  | inr (inr (session, e, g, b, clear, done)) ↦
      elim (Bool-cases (leb (length s.callbacks + 2) max_queued_callbacks)) [
        | inl room ↦ inr (
            inr (
              session,
              e,
              g,
              b,
              clear,
              ground arith,
              accepted_queued s account attempt identity session e done ∙ rw room refl,
            ))
        | inr full ↦
            let r = accepted_queued s account attempt identity session e done in
            inr (inl (ground (arith, r), ground (arith, r), (session, e, g, b)))
      ]
]

-- The registration of an attempt's own bare session that meets a conflict.
pub register_conflict :
    (s : RuntimeState) (account : ℕ) (attempt : Attempt) (identity : Identity) (session : Session)
    (r : Registration)
    → find account s.steam2_users ≡ some session
    → IsStaged session
    → session.generation ≡ attempt.generation
    → session.identity_bound ≡ false
    → find_conflict account
        (convert_to_uint64 identity.steam_id)
        identity.fingerprint
        s.steam2_users
      ≡ some r
    → (register_steam2_user s account attempt identity ≡ (erased s account, r))
      × (is_accepted r ≡ false)
unfolding register_steam2_user complete_session is_accepted
register_conflict s account attempt identity session r e st g b clash =
    let kind =
      find_conflict_kind account (convert_to_uint64 identity.steam_id) identity.fingerprint
        s.steam2_users r clash in
    let dropped =
      remove_client_present s account attempt.generation session e (IsStaged-not_removed session st)
        (inr g) in
    let found = complete_present s account attempt identity session e in
    (ground (arith, kind, dropped, found), ground (arith, kind))

-- The same with no conflict: accepted as a whole if the queue has room for the pair.
pub register_clear :
    (s : RuntimeState) (account : ℕ) (attempt : Attempt) (identity : Identity) (session : Session)
    → find account s.steam2_users ≡ some session
    → IsStaged session
    → session.generation ≡ attempt.generation
    → session.identity_bound ≡ false
    → find_conflict account
        (convert_to_uint64 identity.steam_id)
        identity.fingerprint
        s.steam2_users
      ≡ none
    → register_steam2_user s account attempt identity ≡ (
        if leb (length s.callbacks + 2) max_queued_callbacks
        then (accepted_state s account attempt identity session, accepted)
        else (erased s account, callback_queue_full))
unfolding complete_session
register_clear s account attempt identity session e st g b clear =
    accepted_queued s account attempt identity session e (
      ground (
        arith,
        complete_present s account attempt identity session e,
        register_identity_lem s account attempt identity session e g (IsStaged-new session st b),
      ))
