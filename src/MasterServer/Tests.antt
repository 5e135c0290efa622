-- ===== src/MasterServer/Tests.antt =====
-- The array of addresses at its initial value, and the theorems at it.
use revive_emu.Base.{ℕ, ◌≡◌, refl, true, false, some, List, [], ◌∷◌, ◌++◌, arith}
use revive_emu.Base.Lists.{take}
use revive_emu.Runtime.{initial_master_server, replicate}
use revive_emu.MasterServer.{add_master_server, remove_master_server}
use revive_emu.MasterServer.Addresses.{addresses, IsAddressTable, Adds, Removes, edit_addresses}
use revive_emu.MasterServer.Repeat.{remove_master_server-add_master_server, add_long_address}
use revive_emu.MasterServer.KeyValues.{Sets, set_key_value_lem}
use revive_emu.MasterServer.{set_key_value}
use revive_emu.Base.{inr}

initial-IsAddressTable : IsAddressTable initial_master_server
initial-IsAddressTable = record { sixteen = refl; within = omega arith }

-- "ab"
abbrev ab : List ℕ
ab = 97 ∷ 98 ∷ []

edit_addresses_example :
    Adds initial_master_server ab (add_master_server initial_master_server (some ab))
    × Removes initial_master_server ab (remove_master_server initial_master_server (some ab))
edit_addresses_example = edit_addresses initial_master_server 97 (98 ∷ []) initial-IsAddressTable

remove_master_server-add_master_server_example :
    let r = remove_master_server (add_master_server initial_master_server (some ab)).0 (some ab) in
    (addresses r.0 ≡ addresses initial_master_server) × (r.1 ≡ true)
remove_master_server-add_master_server_example =
    remove_master_server-add_master_server initial_master_server 97 (98 ∷ []) initial-IsAddressTable
      refl (omega arith) (omega arith)

abbrev long_text : List ℕ
long_text = replicate 130 97

add_long_address_example :
    (addresses (add_master_server initial_master_server (some (98 ∷ long_text))).0
      ≡ addresses initial_master_server ++ take 127 (98 ∷ long_text) ∷ [])
    × (addresses (remove_master_server initial_master_server (some (98 ∷ long_text))).0
        ≡ addresses initial_master_server)
    × ((remove_master_server initial_master_server (some (98 ∷ long_text))).1 ≡ false)
add_long_address_example =
    add_long_address initial_master_server 98 long_text initial-IsAddressTable tt (omega arith)
      (omega arith)

set_key_value_lem_example :
    Sets ab
      (some ab)
      ab
      initial_master_server
      (set_key_value initial_master_server (some ab) (some ab))
set_key_value_lem_example =
    set_key_value_lem initial_master_server 97 (98 ∷ []) (some ab) ab (omega arith) (inr refl)
