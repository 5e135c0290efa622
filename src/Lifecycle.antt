-- ===== src/Lifecycle.antt =====
-- Steam/steamclient_legacy/LegacySteamLifecycle.cpp: the state machine of one client session.
-- A session is found by account; the generation that the caller gives is compared with its own.
pub mod Steps
pub mod Diagram
use revive_emu.Base.{ℕ, Bool, true, false, not, ◌&&◌, ◌||◌, Option, none, some, ◌==◌, if◌then◌else◌}
use revive_emu.Base.Map.{find, update, erase}
use revive_emu.Runtime.{
  RuntimeState, Session, QueuedCallback, Lifecycle, new, auth_pending, authenticated, active,
  disconnecting, removed, callback_client_approve, callback_client_steam2_accept,
}

-- The value of the enumerator.
abbrev pub lifecycle_value : Lifecycle → ℕ
lifecycle_value new = 0
lifecycle_value auth_pending = 1
lifecycle_value authenticated = 2
lifecycle_value active = 3
lifecycle_value disconnecting = 4
lifecycle_value removed = 5

abbrev pub same_lifecycle : Lifecycle → Lifecycle → Bool
same_lifecycle a b = lifecycle_value a == lifecycle_value b

-- `IsAllowedTransition`
unfoldable pub is_allowed_transition : Lifecycle → Lifecycle → Bool
is_allowed_transition new to = same_lifecycle to auth_pending || same_lifecycle to disconnecting
is_allowed_transition auth_pending to =
    same_lifecycle to authenticated || same_lifecycle to disconnecting
is_allowed_transition authenticated to = same_lifecycle to active || same_lifecycle to disconnecting
is_allowed_transition active to = same_lifecycle to disconnecting
is_allowed_transition disconnecting to = same_lifecycle to removed
is_allowed_transition removed to = false

-- The part of `TransitionClientLifecycleLocked` behind the look-up.
unfoldable pub transition_session : RuntimeState → ℕ → ℕ → Lifecycle → Session → RuntimeState × Bool
transition_session s account generation next session =
    if not (session.generation == generation)
    then (s, false)
    else if same_lifecycle session.lifecycle next
    then (s, true)
    else if not (is_allowed_transition session.lifecycle next)
    then (s, false)
    else (
      record s {
        steam2_users = update account (record session { lifecycle = next }) s.steam2_users;
      },
      true,
    )

-- `TransitionClientLifecycleLocked`
unfoldable pub transition : RuntimeState → ℕ → ℕ → Lifecycle → RuntimeState × Bool
transition s account generation next = elim (find account s.steam2_users) [
  | none ↦ (s, false)
  | some session ↦ transition_session s account generation next session
]

-- The last steps of `RemoveClientLifecycleLocked`: to REMOVED, and out of the table.
unfoldable pub remove_disconnected : RuntimeState → ℕ → ℕ → RuntimeState × ℕ
remove_disconnected s account generation =
    let (s', done) = transition s account generation removed in
    if not done then (s', 0) else (record s' { steam2_users = erase account s'.steam2_users }, 1)

-- Its part behind the look-up.
unfoldable pub remove_session : RuntimeState → ℕ → Session → RuntimeState × ℕ
remove_session s account session =
    if not (same_lifecycle session.lifecycle disconnecting)
    then (let (s', done) = transition s account session.generation disconnecting in
        if not done then (s', 0) else remove_disconnected s' account session.generation)
    else remove_disconnected s account session.generation

-- `RemoveClientLifecycleLocked`: generation 0 stands for any.
unfoldable pub remove_client : RuntimeState → ℕ → ℕ → RuntimeState × ℕ
remove_client s account generation = elim (find account s.steam2_users) [
  | none ↦ (s, 0)
  | some session ↦
      if not (generation == 0) && not (session.generation == generation)
      then (s, 0)
      else remove_session s account session
]

-- `ApplyAuthCallbackLifecycleLocked`
unfoldable pub apply_auth_callback : RuntimeState → QueuedCallback → RuntimeState
apply_auth_callback s c =
    if not c.auth_callback || c.generation == 0
    then s
    else if c.callback == callback_client_steam2_accept
    then (transition s c.account_id c.generation authenticated).0
    else if c.callback == callback_client_approve
    then (transition s c.account_id c.generation active).0
    else s
