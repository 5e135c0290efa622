-- ===== src/Lifecycle/Steps.antt =====
-- What one transition and one removal do to the session table.
use revive_emu.Base.{
  ℕ, ◌≡◌, ◌≢◌, ◌⊎◌, inl, inr, refl, true, false, none, some, ◌==◌, Bool-cases, arith,
}
use revive_emu.Base.Map.{find, update, erase, find-update, erase-update}
use revive_emu.Runtime.{RuntimeState, Session, Lifecycle, disconnecting, removed}
use revive_emu.Lifecycle.{
  lifecycle_value, same_lifecycle, is_allowed_transition, transition_session, transition,
  remove_disconnected, remove_session, remove_client,
}

-- The state with one session moved to a lifecycle state.
abbrev pub moved : RuntimeState → ℕ → Session → Lifecycle → RuntimeState
moved s account session next = record s {
  steam2_users = update account (record session { lifecycle = next }) s.steam2_users;
}

pub find-update_self :
    (s : RuntimeState) (account : ℕ) (old session : Session)
    → find account s.steam2_users ≡ some old
    → find account (update account session s.steam2_users) ≡ some session
find-update_self s account old session e =
    ground (arith, find-update account account session old s.steam2_users e)

-- A transition that the diagram allows, asked for by the session's own generation, is made.
pub transition_allowed :
    (s : RuntimeState) (account : ℕ) (next : Lifecycle) (session : Session)
    → find account s.steam2_users ≡ some session
    → is_allowed_transition session.lifecycle next ≡ true
    → lifecycle_value session.lifecycle ≢ lifecycle_value next
    → transition s account session.generation next ≡ (moved s account session next, true)
unfolding transition transition_session
transition_allowed s account next session e a d = ground arith

-- A transition asked for by any other generation changes nothing and answers false.
pub transition_stale :
    (s : RuntimeState) (account generation : ℕ) (next : Lifecycle) (session : Session)
    → find account s.steam2_users ≡ some session
    → session.generation ≢ generation
    → transition s account generation next ≡ (s, false)
unfolding transition transition_session
transition_stale s account generation next session e d = ground arith

pub transition_absent :
    (s : RuntimeState) (account generation : ℕ) (next : Lifecycle)
    → find account s.steam2_users ≡ none
    → transition s account generation next ≡ (s, false)
unfolding transition
transition_absent s account generation next e = ground arith

abbrev pub erased : RuntimeState → ℕ → RuntimeState
erased s account = record s { steam2_users = erase account s.steam2_users }

remove_disconnected_lem :
    (s : RuntimeState) (account : ℕ) (session : Session)
    → find account s.steam2_users ≡ some session
    → session.lifecycle ≡ disconnecting
    → remove_disconnected s account session.generation ≡ (erased s account, 1)
unfolding remove_disconnected is_allowed_transition
remove_disconnected_lem s account session e l = ground (
  arith,
  transition_allowed s account removed session e,
  erase-update account (record session { lifecycle = removed }) s.steam2_users,
)

remove_session_lem :
    (s : RuntimeState) (account : ℕ) (session : Session)
    → find account s.steam2_users ≡ some session
    → session.lifecycle ≢ removed
    → remove_session s account session ≡ (erased s account, 1)
unfolding remove_session is_allowed_transition
remove_session_lem s account session e l =
    let gone : Session = record session { lifecycle = disconnecting } in
    ground (
      arith,
      transition_allowed s account disconnecting session e,
      remove_disconnected_lem s account session e,
      remove_disconnected_lem (moved s account session disconnecting) account gone
          (find-update_self s account session gone e) refl,
      erase-update account gone s.steam2_users,
    )

-- Removing a present session, by its own generation or by 0 for any, takes it out of the table and
-- touches nothing else, from every state but REMOVED.
pub remove_client_present :
    (s : RuntimeState) (account generation : ℕ) (session : Session)
    → find account s.steam2_users ≡ some session
    → session.lifecycle ≢ removed
    → (generation ≡ 0) ⊎ (session.generation ≡ generation)
    → remove_client s account generation ≡ (erased s account, 1)
unfolding remove_client
remove_client_present s account generation session e l g =
    ground (arith, remove_session_lem s account session e l)

pub remove_client_absent :
    (s : RuntimeState) (account generation : ℕ)
    → find account s.steam2_users ≡ none
    → remove_client s account generation ≡ (s, 0)
unfolding remove_client
remove_client_absent s account generation e = ground arith

-- A removal for another generation than the session's changes nothing.
pub remove_client_stale :
    (s : RuntimeState) (account generation : ℕ) (session : Session)
    → find account s.steam2_users ≡ some session
    → generation ≢ 0
    → session.generation ≢ generation
    → remove_client s account generation ≡ (s, 0)
unfolding remove_client
remove_client_stale s account generation session e z g = ground arith

-- The outcomes of a transition of a present session, each with the tests that led to it.
pub transition_cases :
    (s : RuntimeState) (account generation : ℕ) (next : Lifecycle) (session : Session)
    → find account s.steam2_users ≡ some session
    → ((transition s account generation next ≡ (s, false))
        × ((session.generation ≢ generation)
            ⊎ ((same_lifecycle session.lifecycle next ≡ false)
                × (is_allowed_transition session.lifecycle next ≡ false))))
      ⊎ ((transition s account generation next ≡ (s, true))
          × (session.generation ≡ generation)
          × (lifecycle_value session.lifecycle ≡ lifecycle_value next))
      ⊎ ((transition s account generation next ≡ (moved s account session next, true))
          × (session.generation ≡ generation)
          × (is_allowed_transition session.lifecycle next ≡ true))
unfolding transition transition_session
transition_cases s account generation next session e =
    elim (Bool-cases (session.generation == generation)) [
      | inr other ↦ inl (ground arith, inl (ground arith))
      | inl own ↦ elim (Bool-cases (same_lifecycle session.lifecycle next)) [
        | inl there ↦ inr (inl (ground arith, ground arith, ground arith))
        | inr away ↦ elim (Bool-cases (is_allowed_transition session.lifecycle next)) [
          | inl allowed ↦ inr (inr (ground arith, ground arith, allowed))
          | inr forbidden ↦ inl (ground arith, inr (away, forbidden))
        ]
      ]
    ]
