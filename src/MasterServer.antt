-- ===== src/MasterServer.antt =====
-- Steam/steamclient_legacy/LegacySteamInterfaces.cpp, `CSteamMasterServerUpdater001`: the part of
-- the state that it keeps, with its table of 64 key-value pairs and its array of 16 addresses.
-- Each call is one critical section on `Runtime().masterServer`. A C string is the list of the bytes
-- before its first NUL, and `none` is NULL. The calls on packets and on a restart answer a constant.
pub mod Occurrence
pub mod Addresses
pub mod Repeat
pub mod KeyValues
mod Tests
use revive_emu.Base.{
  ℕ, zero, suc, ◌+◌, ◌-◌, Bool, true, false, not, ◌&&◌, ◌||◌, Option, none, some, List, [], ◌∷◌,
  ◌==◌, ltb, leb, if◌then◌else◌,
}
use revive_emu.Base.Bytes.{u32_mod}
use revive_emu.Base.Text.{same_text}
use revive_emu.Base.Lists.{length, take}
use revive_emu.Runtime.{MasterServerState, KeyValue, replicate}

-- `CopyText` into an array of a size above 0: NULL stands for the empty string, and what does not
-- fit is cut off.
unfoldable pub copy_text : ℕ → Option (List ℕ) → List ℕ
copy_text size none = []
copy_text size (some text) = take (size - 1) text

-- `SetActive`
unfoldable pub set_active : MasterServerState → Bool → MasterServerState
set_active m active = record m {
  is_active = active;
  shutdown_notified = if active then false else m.shutdown_notified;
}

-- `SetHeartbeatInterval`
unfoldable pub set_heartbeat_interval : MasterServerState → ℕ → MasterServerState
set_heartbeat_interval m interval = record m { heartbeat_interval = interval }

-- `SetBasicServerData`
unfoldable pub set_basic_server_data :
    MasterServerState
    → ℕ
    → Bool
    → Option (List ℕ)
    → Option (List ℕ)
    → ℕ
    → Bool
    → Option (List ℕ)
    → MasterServerState
set_basic_server_data m protocol dedicated region product clients protected description = record m {
  protocol_version = protocol;
  dedicated = dedicated;
  region_name = copy_text 64 region;
  product_name = copy_text 64 product;
  max_clients = clients;
  password_protected = protected;
  game_description = copy_text 128 description;
}

-- `ClearAllKeyValues`
unfoldable pub clear_all_key_values : MasterServerState → MasterServerState
clear_all_key_values m = record m {
  key_values = replicate 64 (record { used = false; key = []; value = [] });
}

-- Where the loop of `SetKeyValue` ends: in the entry of the key, in the first free one, or nowhere.
pub data Slot : Type 0 where
  entry vacant : ℕ → Slot
  nowhere : Slot

unfoldable pub slot_of : Option ℕ → Slot
slot_of none = nowhere
slot_of (some i) = vacant i

unfoldable pub note_free : KeyValue → ℕ → Option ℕ → Option ℕ
note_free e i none = if not e.used then some i else none
note_free e i (some j) = some j

-- The loop from entry `i` on, with the free slot noted so far.
unfoldable pub find_slot : List ℕ → ℕ → Option ℕ → List KeyValue → Slot
find_slot key i free [] = slot_of free
find_slot key i free (e ∷ es) =
    let rest = find_slot key (suc i) (note_free e i free) es in
    if e.used && same_text e.key key then entry i else rest

-- `array[i] = x`
unfoldable pub set_elem {ℓ} : {A : Type ℓ} → ℕ → A → List A → List A
set_elem i x [] = []
set_elem zero x (y ∷ r) = x ∷ r
set_elem (suc i) x (y ∷ r) = y ∷ set_elem i x r

-- `CopyText(entry.value, ...)`
unfoldable pub set_value : ℕ → List ℕ → List KeyValue → List KeyValue
set_value i value [] = []
set_value zero value (e ∷ es) = record e { value = value } ∷ es
set_value (suc i) value (e ∷ es) = e ∷ set_value i value es

unfoldable pub write_slot : Slot → List ℕ → Option (List ℕ) → List KeyValue → List KeyValue
write_slot (entry i) key value es = set_value i (copy_text 128 value) es
write_slot (vacant i) key value es =
    set_elem i (record { used = true; key = copy_text 64 (some key); value = copy_text 128 value })
      es
write_slot nowhere key value es = es

-- `SetKeyValue`
unfoldable pub set_key_value :
    MasterServerState → Option (List ℕ) → Option (List ℕ) → MasterServerState
set_key_value m none value = m
set_key_value m (some []) value = m
set_key_value m (some (c ∷ key)) value = record m {
  key_values = write_slot (find_slot (c ∷ key) 0 none m.key_values) (c ∷ key) value m.key_values;
}

-- `NotifyShutdown`
unfoldable pub notify_shutdown : MasterServerState → MasterServerState
notify_shutdown m = record m { is_active = false; shutdown_notified = true }

-- `ForceHeartbeat`
unfoldable pub force_heartbeat : MasterServerState → MasterServerState
force_heartbeat m = record m { heartbeat_forced = true }

-- `FindMasterServer` for an address that is not NULL: the first of the first `n`, `none` for -1.
unfoldable pub find_master_server : List ℕ → ℕ → List (List ℕ) → Option ℕ
find_master_server address zero servers = none
find_master_server address (suc n) [] = none
find_master_server address (suc n) (s ∷ servers) =
    let rest = find_master_server address n servers in
    if same_text s address then some 0 else elim rest [ none ↦ none | some i ↦ some (suc i) ]

-- `AddMasterServer` for an address that is neither NULL nor empty.
unfoldable pub add_address : MasterServerState → List ℕ → MasterServerState × Bool
add_address m address = elim (find_master_server address m.master_server_count m.master_servers) [
  | some i ↦ (m, true)
  | none ↦ if leb 16 m.master_server_count then (m, false) else (
    record m {
      master_servers =
          set_elem m.master_server_count (copy_text 128 (some address)) m.master_servers;
      master_server_count = m.master_server_count + 1;
    },
    true,
  )
]

-- `AddMasterServer`
unfoldable pub add_master_server : MasterServerState → Option (List ℕ) → MasterServerState × Bool
add_master_server m none = (m, false)
add_master_server m (some []) = (m, false)
add_master_server m (some (c ∷ address)) = add_address m (c ∷ address)

-- `array[i]`; no index of this file leaves its array.
unfoldable pub elem_at : ℕ → List (List ℕ) → List ℕ
elem_at i [] = []
elem_at zero (x ∷ r) = x
elem_at (suc i) (x ∷ r) = elem_at i r

-- The loop that closes the gap: `n` more rounds from index `i` on.
unfoldable pub shift_loop : ℕ → ℕ → List (List ℕ) → List (List ℕ)
shift_loop zero i servers = servers
shift_loop (suc n) i servers = shift_loop n (suc i) (set_elem (i - 1) (elem_at i servers) servers)

-- The state without the address at an index.
unfoldable pub remove_at : MasterServerState → ℕ → MasterServerState
remove_at m pos = record m {
  master_servers =
      set_elem (m.master_server_count - 1) []
        (shift_loop (m.master_server_count - suc pos) (suc pos) m.master_servers);
  master_server_count = m.master_server_count - 1;
}

-- `RemoveMasterServer`
unfoldable pub remove_master_server : MasterServerState → Option (List ℕ) → MasterServerState × Bool
remove_master_server m none = (m, false)
remove_master_server m (some []) = (m, false)
remove_master_server m (some (c ∷ address)) =
    elim (find_master_server (c ∷ address) m.master_server_count m.master_servers) [
      | none ↦ (m, false)
      | some pos ↦ (remove_at m pos, true)
    ]

-- `GetNumMasterServers`
unfoldable pub get_num_master_servers : MasterServerState → ℕ
get_num_master_servers m = m.master_server_count

-- `GetMasterServerAddress` into a buffer of `size` bytes, for an index and a size that are not
-- negative: the text that is written, and its length.
unfoldable pub get_master_server_address : MasterServerState → ℕ → Bool → ℕ → Option (List ℕ) × ℕ
get_master_server_address m index has_buffer size =
    if not has_buffer || size == 0
    then (none, 0)
    else if leb m.master_server_count index
    then (some [], 0)
    else (let server = elem_at index m.master_servers in
        let bytes = if ltb (length server) (size - 1) then length server else size - 1 in
        (some (take bytes server), bytes))
