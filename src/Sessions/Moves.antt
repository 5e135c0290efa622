-- ===== src/Sessions/Moves.antt =====
-- What the calls of `LegacySteamAuth` do to a state whose session is staged.
use revive_emu.Base.{
  ℕ, ◌≡◌, ◌≢◌, ◌⊎◌, inl, inr, sym, subst, true, false, not, ◌&&◌, Option, none, some, [], ◌∷◌, ◌==◌,
  Bool-cases, Option-cases, if◌then◌else◌, arith,
}
use revive_emu.Base.Map.{Map, find, insert, update, update-update}
use revive_emu.SteamId.{SteamId, convert_to_uint64}
use revive_emu.Auth.Ticket.{Identity}
use revive_emu.Runtime.{RuntimeState, Session, Lifecycle, new, auth_pending}
use revive_emu.Lifecycle.{is_allowed_transition}
use revive_emu.Lifecycle.Steps.{erased, find-update_self, transition_allowed, remove_client_present}
use revive_emu.Sessions.Table.{IsStaged}
use revive_emu.Sessions.{
  Registration, accepted, active_replay, duplicate_steam_id, Attempt, removed,
  canceled_pending_auth, already_absent, identity_mismatch, find_conflict, bind_identity,
  register_identity, complete_session, complete_steam2_user, abort_steam2_auth, remove_steam2_user,
  disconnect_steam2_user,
}

-- No conflict means that no other account is bound to the id.
pub find_conflict-none :
    (account id fingerprint : ℕ) (m : Map Session) (j : ℕ) (y : Session)
    → find_conflict account id fingerprint m ≡ none
    → j ≢ account
    → find j m ≡ some y
    → y.identity_bound ≡ true
    → convert_to_uint64 y.steam_id ≢ id
unfolding find_conflict find
find_conflict-none account id fingerprint [] j y none_found off at b e = cc
find_conflict-none account id fingerprint ((i, x) ∷ m) j y none_found off at b e =
    ground (arith, find_conflict-none account id fingerprint m j y)

-- A conflict is never reported as an acceptance.
pub find_conflict_not_accepted :
    (account id fingerprint : ℕ) (m : Map Session)
    → find_conflict account id fingerprint m ≢ some accepted
unfolding find_conflict
find_conflict_not_accepted account id fingerprint [] e = cc
find_conflict_not_accepted account id fingerprint ((i, x) ∷ m) e =
    ground (arith, find_conflict_not_accepted account id fingerprint m)

pub IsStaged-not_removed : (x : Session) → IsStaged x → x.lifecycle ≢ Lifecycle.removed
IsStaged-not_removed x h e = ground arith

-- A staged session that is bound to no identity has not left NEW.
pub IsStaged-new : (x : Session) → IsStaged x → x.identity_bound ≡ false → x.lifecycle ≡ new
IsStaged-new x h b = ground arith

-- The session after its registration.
abbrev pub registered : Session → Identity → Session
registered session identity = record (bind_identity session identity) { lifecycle = auth_pending }

abbrev pub with_session : RuntimeState → ℕ → Session → RuntimeState
with_session s account session = record s { steam2_users = update account session s.steam2_users }

pub register_identity_lem :
    (s : RuntimeState) (account : ℕ) (attempt : Attempt) (identity : Identity) (session : Session)
    → find account s.steam2_users ≡ some session
    → session.generation ≡ attempt.generation
    → session.lifecycle ≡ new
    → register_identity s account attempt identity session
      ≡ (with_session s account (registered session identity), accepted, some attempt.generation)
unfolding register_identity bind_identity is_allowed_transition
register_identity_lem s account attempt identity session e g l =
    let bound : Session = bind_identity session identity in
    ground (
      arith,
      transition_allowed (with_session s account bound) account auth_pending bound
          (find-update_self s account session bound e),
      update-update account (registered session identity) bound s.steam2_users,
    )

-- The three ways `CompleteSteam2UserLocked` ends on a staged session: nothing changes and nobody is
-- accepted; the attempt's own session is dropped over a conflict; or the session was a reservation
-- of this attempt, no other account is bound to the id, and the session is registered.
abbrev pub Completes :
    RuntimeState → ℕ → Attempt → Identity → RuntimeState × Registration × Option ℕ → Type 0
Completes s account attempt identity r =
    ((r.0 ≡ s) × (r.1 ≢ accepted))
    ⊎ ((r.0 ≡ erased s account)
        × (r.1 ≢ accepted)
        × ((x : Session) × (find account s.steam2_users ≡ some x)
            × (x.generation ≡ attempt.generation)
            × (x.identity_bound ≡ false)))
    ⊎ ((session : Session) × (find account s.steam2_users ≡ some session)
        × (session.generation ≡ attempt.generation)
        × (session.identity_bound ≡ false)
        × (find_conflict account (convert_to_uint64 identity.steam_id) identity.fingerprint
              s.steam2_users
            ≡ none)
        × (r ≡ (
          with_session s account (registered session identity),
          accepted,
          some attempt.generation,
        )))

complete_unbound :
    (s : RuntimeState) (account : ℕ) (attempt : Attempt) (identity : Identity) (session : Session)
    → find account s.steam2_users ≡ some session
    → IsStaged session
    → session.generation ≡ attempt.generation
    → session.identity_bound ≡ false
    → Completes s account attempt identity (complete_session s account attempt identity session)
unfolding complete_session
complete_unbound s account attempt identity session e st g b =
    let id = convert_to_uint64 identity.steam_id in
    elim (Option-cases (find_conflict account id identity.fingerprint s.steam2_users)) [
      | inl clear ↦ inr (
          inr (
            session,
            e,
            g,
            b,
            clear,
            ground (
              arith,
              register_identity_lem s account attempt identity session e g
                  (IsStaged-new session st b),
            ),
          ))
      | inr (r, clash) ↦ inr (
          inl (
            ground (
              arith,
              remove_client_present s account attempt.generation session e
                  (IsStaged-not_removed session st) (inr g),
            ),
            ground
                (arith, find_conflict_not_accepted account id identity.fingerprint s.steam2_users),
            (session, e, g, b),
          ))
    ]

complete_session_cases :
    (s : RuntimeState) (account : ℕ) (attempt : Attempt) (identity : Identity) (session : Session)
    → find account s.steam2_users ≡ some session
    → IsStaged session
    → Completes s account attempt identity (complete_session s account attempt identity session)
unfolding complete_session
complete_session_cases s account attempt identity session e st =
    elim (Bool-cases (session.generation == attempt.generation)) [
      | inr other ↦ inl (ground arith, ground arith)
      | inl own ↦ elim (Bool-cases session.identity_bound) [
        | inl bound ↦ inl (ground arith, ground arith)
        | inr free ↦ complete_unbound s account attempt identity session e st (ground arith) free
      ]
    ]

pub complete_present :
    (s : RuntimeState) (account : ℕ) (attempt : Attempt) (identity : Identity) (session : Session)
    → find account s.steam2_users ≡ some session
    → complete_steam2_user s account attempt identity
      ≡ complete_session s account attempt identity session
unfolding complete_steam2_user
complete_present s account attempt identity session e = rw (e, complete_steam2_user)

pub complete_cases :
    (s : RuntimeState) (account : ℕ) (attempt : Attempt) (identity : Identity)
    → ((x : Session) → find account s.steam2_users ≡ some x → IsStaged x)
    → Completes s account attempt identity (complete_steam2_user s account attempt identity)
unfolding complete_steam2_user
complete_cases s account attempt identity t = elim (Option-cases (find account s.steam2_users)) [
  | inl absent ↦ inl (ground arith, ground arith)
  | inr (session, e) ↦
      subst (Completes s account attempt identity)
        (sym (complete_present s account attempt identity session e))
        (complete_session_cases s account attempt identity session e (t session e))
]

-- On a staged session an abort drops the account's session or does nothing.
pub abort_cases :
    (s : RuntimeState) (account : ℕ) (attempt : Attempt)
    → ((x : Session) → find account s.steam2_users ≡ some x → IsStaged x)
    → (abort_steam2_auth s account attempt ≡ s)
      ⊎ (abort_steam2_auth s account attempt ≡ erased s account)
unfolding abort_steam2_auth
abort_cases s account attempt t = elim (Option-cases (find account s.steam2_users)) [
  | inl absent ↦ inl (ground arith)
  | inr (session, e) ↦
      elim (Bool-cases (
        attempt.created_reservation
        && session.generation == attempt.generation
        && not session.identity_bound)) [
          | inr refused ↦ inl (ground arith)
          | inl granted ↦ inr (
              ground (
                arith,
                remove_client_present s account attempt.generation session e
                    (IsStaged-not_removed session (t session e)),
              ))
        ]
]

-- On a staged session a removal always takes the session that is there, and reports its generation.
pub remove_steam2_user_present :
    (s : RuntimeState) (account : ℕ) (session : Session)
    → find account s.steam2_users ≡ some session
    → IsStaged session
    → remove_steam2_user s account ≡ (erased s account, 1, some session.generation)
unfolding remove_steam2_user
remove_steam2_user_present s account session e st = ground (
  arith,
  remove_client_present s account session.generation session e (IsStaged-not_removed session st),
)

pub remove_steam2_user_absent :
    (s : RuntimeState) (account : ℕ)
    → find account s.steam2_users ≡ none
    → remove_steam2_user s account ≡ (s, 0, none)
unfolding remove_steam2_user
remove_steam2_user_absent s account e = ground arith

-- The answer of a disconnect follows from the account's session and the id alone.
pub disconnect_present :
    (s : RuntimeState) (account : ℕ) (id : SteamId) (session : Session)
    → find account s.steam2_users ≡ some session
    → IsStaged session
    → disconnect_steam2_user s account id ≡ (
        if not session.identity_bound
        then (erased s account, canceled_pending_auth, some session.generation)
        else if not (convert_to_uint64 session.steam_id == convert_to_uint64 id)
        then (s, identity_mismatch, some session.generation)
        else (erased s account, removed, some session.generation))
unfolding disconnect_steam2_user
disconnect_present s account id session e st = ground (
  arith,
  remove_client_present s account session.generation session e (IsStaged-not_removed session st),
)

pub disconnect_absent :
    (s : RuntimeState) (account : ℕ) (id : SteamId)
    → find account s.steam2_users ≡ none
    → disconnect_steam2_user s account id ≡ (s, already_absent, none)
unfolding disconnect_steam2_user
disconnect_absent s account id e = ground arith

-- A conflict is reported as a replay or as a duplicate.
pub find_conflict_kind :
    (account id fingerprint : ℕ) (m : Map Session) (r : Registration)
    → find_conflict account id fingerprint m ≡ some r
    → (r ≡ active_replay) ⊎ (r ≡ duplicate_steam_id)
unfolding find_conflict
find_conflict_kind account id fingerprint [] r e = cc
find_conflict_kind account id fingerprint ((i, x) ∷ m) r e =
    ground (arith, find_conflict_kind account id fingerprint m r)

-- The account's own session, if it is not bound, is passed over.
pub find_conflict-insert :
    (account id fingerprint : ℕ) (x : Session) (m : Map Session)
    → x.identity_bound ≡ false
    → find_conflict account id fingerprint (insert account x m)
      ≡ find_conflict account id fingerprint m
unfolding find_conflict insert
find_conflict-insert account id fingerprint x [] free = ground arith
find_conflict-insert account id fingerprint x ((i, y) ∷ m) free =
    ground (arith, find_conflict-insert account id fingerprint x m free)
