-- ===== src/GameServer/Tests.antt =====
-- A server with one client that connected with a valid ticket, and the theorems at it.
use revive_emu.Base.{
  ◌+◌, ◌<◌, ◌≡◌, ◌≢◌, ◌⊎◌, inl, refl, Bool, true, false, none, some, [], ◌∷◌, ◌++◌, not, arith, ap,
  subst,
}
use revive_emu.Base.Bytes.{Memory}
use revive_emu.Base.Lists.{length, keep}
use revive_emu.Base.Map.{find, insert, update}
use revive_emu.SteamId.{convert_to_uint64, nil}
use revive_emu.Auth.Ticket.{Identity, valid, parse_and_validate}
use revive_emu.Auth.Agree.{classic_identity, parse_and_validate_identity}
use revive_emu.Auth.Tests.{ticket_head, at_byte, at_byte-IsBytes, accepted}
use revive_emu.Runtime.{RuntimeState, Session, active, initial_state}
use revive_emu.Lifecycle.Steps.{moved, erased, remove_client_present}
use revive_emu.Lifecycle.Diagram.{Edge, transition_lem}
use revive_emu.Callbacks.Queue.{
  accept_callback, approve_callback, queue_steam2_auth_callbacks_atomic, erase_pending_lem,
}
use revive_emu.Callbacks.{queue_steam2_auth_callbacks, erase_pending, is_pending_auth}
use revive_emu.GameServer.Connect.{Registers, register_cases}
use revive_emu.GameServer.{register_steam2_user}
use revive_emu.Lifecycle.{remove_client, transition}
use revive_emu.Sessions.{
  Attempt, begin_steam2_auth, reserve, next_generation, bind_identity, find_conflict,
}
use revive_emu.Sessions.Moves.{registered}
use revive_emu.Sessions.Table.{IsStaged}
use revive_emu.Callbacks.Queue.{with_callbacks}
use revive_emu.GameServer.{
  finish_connect, send_steam2_user_connect, remove_user_connect, send_user_disconnect,
}
use revive_emu.GameServer.Reserved.{reserved_session, accepted_new}
use revive_emu.GameServer.Outcome.{
  repeat_answer, Connects, send_steam2_user_connect_cases, send_steam2_user_connect_accepts,
  send_steam2_user_connect_again,
}
use revive_emu.GameServer.Leave.Queue.{
  is_of_account, freed, left, remove_user_connect_lem, send_user_disconnect_lem,
}
use revive_emu.GameServer.Invariant.Base.{Inv}
use revive_emu.GameServer.History.{Reach, start, followed, begins, finishes, Reach-Inv}
use revive_emu.GameServer.Drain.{deliver_all, settled, deliver_all_active}

abbrev ticket : Memory
ticket = at_byte ticket_head

abbrev identity : Identity
identity = classic_identity ticket

ticket_parsed : parse_and_validate (some ticket) 152 ≡ (valid, some identity)
ticket_parsed =
    (parse_and_validate_identity ticket 152 (at_byte-IsBytes ticket_head (omega arith)) accepted).2

-- Account 7 connects.
abbrev own_attempt : Attempt
own_attempt = record { generation = 1; created_reservation = true; capacity_exceeded = false }

abbrev connected : RuntimeState
connected = accepted_new initial_state 7 identity

abbrev client : Session
client = registered (reserved_session initial_state) identity

connected_table : find 7 connected.steam2_users ≡ some client
unfolding find reserve update insert next_generation
connected_table = refl

send_steam2_user_connect_accepts_example :
    send_steam2_user_connect initial_state 7 (some ticket) 152 ≡ (connected, true)
unfolding find_conflict find
send_steam2_user_connect_accepts_example =
    send_steam2_user_connect_accepts initial_state 7 (some ticket) 152 identity refl ticket_parsed
      (omega arith) refl (omega arith)

send_steam2_user_connect_cases_example :
    Connects initial_state 7
      (some ticket)
      152
      (send_steam2_user_connect initial_state 7 (some ticket) 152)
unfolding find
send_steam2_user_connect_cases_example =
    send_steam2_user_connect_cases initial_state 7 (some ticket) 152 refl

client_bound : client.identity_bound ≡ true
unfolding bind_identity
client_bound = refl

send_steam2_user_connect_again_example :
    send_steam2_user_connect connected 7 (some ticket) 152
    ≡ (connected, repeat_answer client (parse_and_validate (some ticket) 152))
send_steam2_user_connect_again_example =
    send_steam2_user_connect_again connected 7 (some ticket) 152 client connected_table client_bound

-- The two sections of the connect as steps.
abbrev run : RuntimeState
run =
    (finish_connect (begin_steam2_auth initial_state 7).0 7 own_attempt
      (parse_and_validate (some ticket) 152)).0

run_reached : Reach run
run_reached =
    followed (followed start (begins 7 (omega arith))) (finishes 7 own_attempt (some ticket) 152)

Reach-Inv_example : Inv run
Reach-Inv_example = Reach-Inv run_reached

run-connected : run ≡ connected
unfolding send_steam2_user_connect begin_steam2_auth reserve next_generation insert find
run-connected = ap (λ (r : RuntimeState × Bool). r.0) send_steam2_user_connect_accepts_example

connected_reached : Reach connected
connected_reached = subst Reach run-connected run_reached

deliver_all_active_example :
    let t = deliver_all (length connected.callbacks) connected in
    (t.callbacks ≡ []) × (find 7 t.steam2_users ≡ settled (find 7 connected.steam2_users))
deliver_all_active_example = deliver_all_active connected 7 connected_reached

connected-IsStaged : (x : Session) → find 7 connected.steam2_users ≡ some x → IsStaged x
connected-IsStaged x e = (Reach-Inv connected_reached).table.staged 7 x e

connected-current :
    (x : Session) → find 7 connected.steam2_users ≡ some x → IsStaged x × (0 < x.generation)
connected-current x e =
    (connected-IsStaged x e, ((Reach-Inv connected_reached).table.current 7 x e).0)

remove_user_connect_lem_example :
    ((find 7 connected.steam2_users ≡ none)
      × (remove_user_connect connected 7 ≡ freed connected (is_of_account 7)))
    ⊎ ((x : Session) × (find 7 connected.steam2_users ≡ some x)
        × (remove_user_connect connected 7 ≡ left connected 7 x.generation))
remove_user_connect_lem_example = remove_user_connect_lem connected 7 connected-current

send_user_disconnect_lem_example :
    ((find 7 connected.steam2_users ≡ none)
      × (send_user_disconnect connected nil 7 ≡ (connected, true)))
    ⊎ ((x : Session) × (find 7 connected.steam2_users ≡ some x)
        × (x.identity_bound ≡ true)
        × (convert_to_uint64 x.steam_id ≢ convert_to_uint64 nil)
        × (send_user_disconnect connected nil 7 ≡ (connected, false)))
    ⊎ ((x : Session) × (find 7 connected.steam2_users ≡ some x)
        × ((x.identity_bound ≡ false) ⊎ (convert_to_uint64 x.steam_id ≡ convert_to_uint64 nil))
        × (send_user_disconnect connected nil 7 ≡ (left connected 7 x.generation, true)))
send_user_disconnect_lem_example = send_user_disconnect_lem connected nil 7 connected-current

register_cases_example :
    Registers connected 7 own_attempt identity
      (register_steam2_user connected 7 own_attempt identity)
register_cases_example = register_cases connected 7 own_attempt identity connected-IsStaged

transition_lem_example :
    ((transition connected 7 1 active ≡ (connected, false))
      × ((client.generation ≢ 1)
          ⊎ ((client.lifecycle ≢ active) × (¬ Edge client.lifecycle active))))
    ⊎ ((transition connected 7 1 active ≡ (connected, true))
        × (client.generation ≡ 1)
        × (client.lifecycle ≡ active))
    ⊎ ((transition connected 7 1 active ≡ (moved connected 7 client active, true))
        × (client.generation ≡ 1)
        × Edge client.lifecycle active)
transition_lem_example = transition_lem connected 7 1 active client connected_table

remove_client_present_example : remove_client connected 7 0 ≡ (erased connected 7, 1)
remove_client_present_example =
    remove_client_present connected 7 0 client connected_table (λ e. cc) (inl refl)

queue_steam2_auth_callbacks_atomic_example : queue_steam2_auth_callbacks connected 8 nil 2 ≡ (
  with_callbacks connected
      (connected.callbacks ++ accept_callback 8 nil 2 ∷ approve_callback 8 nil 2 ∷ []),
  true,
)
unfolding reserve
queue_steam2_auth_callbacks_atomic_example = queue_steam2_auth_callbacks_atomic connected 8 nil 2

erase_pending_lem_example :
    ((erase_pending 7 1 connected.callbacks).0
      ≡ keep (λ c. not (is_pending_auth 7 1 c)) connected.callbacks)
    × (length (erase_pending 7 1 connected.callbacks).0 + (erase_pending 7 1 connected.callbacks).1
        ≡ length connected.callbacks)
erase_pending_lem_example = erase_pending_lem 7 1 connected.callbacks
