-- ===== src/GameServer/History.antt =====
-- Every interleaving of the critical sections, from the initial state on. Between the two sections
-- of one connect other threads may run, so a connect finishes on any account, attempt and ticket.
use revive_emu.Base.{ℕ, refl, Bool, Option}
use revive_emu.Base.Bytes.{Memory}
use revive_emu.SteamId.{SteamId}
use revive_emu.Auth.Ticket.{parse_and_validate}
use revive_emu.Runtime.{RuntimeState, MasterServerState, initial_state}
use revive_emu.Sessions.{Attempt, begin_steam2_auth}
use revive_emu.Callbacks.{get_next_callback, free_last_callback}
use revive_emu.GameServer.Invariant.Base.{Inv, initial-Inv}
use revive_emu.GameServer.Invariant.Auth.{
  HasGeneration, begin-Inv, finish-Inv, remove_user_connect-Inv, send_user_disconnect-Inv,
}
use revive_emu.GameServer.Invariant.Delivery.{
  same-Inv, log_on-Inv, send_steam3_user_connect-Inv, get_next_callback-Inv, free_last_callback-Inv,
}
use revive_emu.GameServer.{
  log_on, log_off, finish_connect, send_steam3_user_connect, remove_user_connect,
  send_user_disconnect, set_local_ip_binding, set_server_type, create_unauthenticated_user,
}

-- One critical section. The master-server updater writes to its own part of the state alone.
pub data Step (s : RuntimeState) : RuntimeState → Type 0 where
  begins : (account : ℕ) → HasGeneration s → Step s (begin_steam2_auth s account).0
  finishes :
      (account : ℕ) (attempt : Attempt) (key : Option Memory) (len : ℕ)
      → Step s (finish_connect s account attempt (parse_and_validate key len)).0
  removes : (account : ℕ) → Step s (remove_user_connect s account)
  disconnects : (id : SteamId) (account : ℕ) → Step s (send_user_disconnect s id account).0
  approves : (id : SteamId) → Step s (send_steam3_user_connect s id).0
  logs_on : Step s (log_on s)
  logs_off : Step s (log_off s)
  takes : (pipe : ℕ) (has_msg : Bool) → Step s (get_next_callback s pipe has_msg).0
  frees : (pipe : ℕ) → Step s (free_last_callback s pipe)
  binds : (ip port : ℕ) → Step s (set_local_ip_binding s ip port)
  types : (ip port : ℕ) → Step s (set_server_type s ip port)
  creates : Step s (create_unauthenticated_user s).0
  updates : (m : MasterServerState) → Step s (record s { master_server = m })

pub data Reach : RuntimeState → Type 0 where
  start : Reach initial_state
  followed : {s t : RuntimeState} → Reach s → Step s t → Reach t

-- One section keeps the invariant.
pub Step-Inv : {s t : RuntimeState} → Step s t → Inv s → Inv t
unfolding log_off set_local_ip_binding set_server_type create_unauthenticated_user
Step-Inv {s} (begins account more) v = begin-Inv s account more v
Step-Inv {s} (finishes account attempt key len) v =
    finish-Inv s account attempt (parse_and_validate key len) v
Step-Inv {s} (removes account) v = remove_user_connect-Inv s account v
Step-Inv {s} (disconnects id account) v = send_user_disconnect-Inv s id account v
Step-Inv {s} (approves id) v = send_steam3_user_connect-Inv s id v
Step-Inv {s} logs_on v = log_on-Inv s v
Step-Inv {s} logs_off v = same-Inv s (log_off s) refl refl refl v
Step-Inv {s} (takes pipe has_msg) v = get_next_callback-Inv s pipe has_msg v
Step-Inv {s} (frees pipe) v = free_last_callback-Inv s pipe v
Step-Inv {s} (binds ip port) v = same-Inv s (set_local_ip_binding s ip port) refl refl refl v
Step-Inv {s} (types ip port) v = same-Inv s (set_server_type s ip port) refl refl refl v
Step-Inv {s} creates v = same-Inv s (create_unauthenticated_user s).0 refl refl refl v
Step-Inv {s} (updates m) v = same-Inv s (record s { master_server = m }) refl refl refl v

-- In every state that some interleaving of the calls reaches, fewer than 2 ^ 64 - 1 reservations
-- into the run, there are at most 256 sessions and 1024 callbacks, every session is a bare
-- reservation or bound and on its way, generations and bound ids belong to one account each, and
-- the callbacks that a session waits for are queued, 205 before 201.
pub Reach-Inv : {s : RuntimeState} → Reach s → Inv s
Reach-Inv start = initial-Inv
Reach-Inv (followed r st) = Step-Inv st (Reach-Inv r)
