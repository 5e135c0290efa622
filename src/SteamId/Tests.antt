-- ===== src/SteamId/Tests.antt =====
-- Runs of `CSteamID`, and the theorems at concrete ids.
use revive_emu.Base.{◌+◌, ◌^◌, ◌≡◌, refl, true, false, arith}
use revive_emu.SteamId.{
  SteamId, set, set_from_uint64, convert_to_uint64, get_static_account_key, is_valid, is_lobby,
  full_set,
}
use revive_emu.SteamId.Convert.{uint64_forms}

abbrev player : SteamId
player = record { account_id = 12345; account_instance = 1; account_type = 1; universe = 1 }

player_word : convert_to_uint64 player ≡ 0x110000100003039
unfolding convert_to_uint64
player_word = refl

player_made : set 12345 1 1 ≡ player
unfolding set
player_made = refl

lobby_flag : is_lobby (full_set (2 ^ 50 + 7) 1 8) ≡ true
unfolding is_lobby full_set
lobby_flag = refl

nobody_invalid : is_valid (set 0 1 1) ≡ false
unfolding is_valid set
nobody_invalid = refl

uint64_forms_example :
    (set_from_uint64 (convert_to_uint64 player) ≡ player)
    × (convert_to_uint64 (set_from_uint64 0x110000100003039) ≡ 0x110000100003039)
    × (get_static_account_key player ≡ convert_to_uint64 (record player { account_instance = 0 }))
uint64_forms_example = uint64_forms player 0x110000100003039 (omega arith) (omega arith)
