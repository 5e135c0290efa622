-- ===== src/SteamId.antt =====
-- Steam/steam/Steam3ID.h: `CSteamID`, a 64-bit word in four bit fields, and its conversions to the
-- 64-bit form and to the Steam2 pair of `TSteamGlobalUserID` (Steam/steam/SteamCommon.h).
-- A field is a number; a store into a bit field of w bits keeps the value modulo 2 ^ w, and the
-- universe field is unsigned, as gcc lays out an enumeration without negative values.
pub mod Universe
pub mod AccountType
pub mod Convert
pub mod Validity
mod Tests
use revive_emu.Base.{
  ℕ, ◌+◌, ◌*◌, ◌/◌, ◌%◌, ◌^◌, Bool, true, false, not, ◌&&◌, ◌||◌, bit_and, ltb, leb, ◌==◌,
  if◌then◌else◌,
}
use revive_emu.Base.Bytes.{u32_mod}

abbrev pub user_default_instance : ℕ
user_default_instance = 1

-- `k_EChatInstanceFlagLobby`
abbrev pub chat_instance_flag_lobby : ℕ
chat_instance_flag_lobby = 0x100000 / 4

-- The fields of `SteamIDComponent_t`.
pub record SteamId : Type 0 where
  pub account_id : ℕ
  pub account_instance : ℕ
  pub account_type : ℕ
  pub universe : ℕ

-- `TSteamGlobalUserID`, its local id as the two halves of the union.
pub record GlobalUserId : Type 0 where
  pub instance_id : ℕ
  pub low32bits : ℕ
  pub high32bits : ℕ

-- The default constructor, and `Clear`.
abbrev pub nil : SteamId
nil = record { account_id = 0; account_instance = 0; account_type = 0; universe = 0 }

unfoldable pub instanced_set : ℕ → ℕ → ℕ → ℕ → SteamId
instanced_set account instance_id universe account_type = record {
  account_id = account;
  account_instance = instance_id % 2 ^ 20;
  account_type = account_type % 2 ^ 4;
  universe = universe % 2 ^ 8;
}

-- `Set`: the instance follows from the type.
unfoldable pub set : ℕ → ℕ → ℕ → SteamId
unfolding instanced_set
set account universe account_type =
    instanced_set account
      (if account_type == AccountType.clan || account_type == AccountType.game_server
        then 0
        else user_default_instance)
      universe account_type

unfoldable pub full_set : ℕ → ℕ → ℕ → SteamId
full_set identifier universe account_type = record {
  account_id = bit_and identifier 0xffffffff;
  account_instance = bit_and (identifier / 2 ^ 32) 0xfffff;
  account_type = account_type % 2 ^ 4;
  universe = universe % 2 ^ 8;
}

-- `SetFromUint64` writes the union's 64-bit member; the fields are read back little-endian.
unfoldable pub set_from_uint64 : ℕ → SteamId
set_from_uint64 w = record {
  account_id = w % 2 ^ 32;
  account_instance = w / 2 ^ 32 % 2 ^ 20;
  account_type = w / 2 ^ 52 % 2 ^ 4;
  universe = w / 2 ^ 56 % 2 ^ 8;
}

unfoldable pub convert_to_uint64 : SteamId → ℕ
convert_to_uint64 s =
    s.account_id + s.account_instance * 2 ^ 32 + s.account_type * 2 ^ 52 + s.universe * 2 ^ 56

-- `SetFromSteam2` and `SteamIDFromSteam2UserID`: the sum is one of unsigned 32-bit numbers.
unfoldable pub set_from_steam2 : GlobalUserId → ℕ → SteamId
set_from_steam2 g universe = record {
  account_id = (g.low32bits * 2 + g.high32bits) % u32_mod;
  account_instance = user_default_instance;
  account_type = AccountType.individual;
  universe = universe % 2 ^ 8;
}

-- `ConvertToSteam2` and `SteamIDToSteam2UserID`
unfoldable pub convert_to_steam2 : SteamId → GlobalUserId
convert_to_steam2 s = record {
  instance_id = 0;
  low32bits = s.account_id / 2;
  high32bits = s.account_id % 2;
}

-- `GetStaticAccountKey`: the instance is left out.
pub get_static_account_key : SteamId → ℕ
get_static_account_key s = (s.universe * 2 ^ 56 + s.account_type * 2 ^ 52 + s.account_id) % 2 ^ 64

pub create_blank_anon_logon : ℕ → SteamId
create_blank_anon_logon universe = record {
  account_id = 0;
  account_instance = 0;
  account_type = AccountType.anon_game_server;
  universe = universe % 2 ^ 8;
}

pub create_blank_anon_user_logon : ℕ → SteamId
create_blank_anon_user_logon universe = record {
  account_id = 0;
  account_instance = 0;
  account_type = AccountType.anon_user;
  universe = universe % 2 ^ 8;
}

pub is_anon_account : SteamId → Bool
is_anon_account s =
    s.account_type == AccountType.anon_user || s.account_type == AccountType.anon_game_server

pub is_blank_anon_account : SteamId → Bool
unfolding is_anon_account
is_blank_anon_account s = s.account_id == 0 && is_anon_account s && s.account_instance == 0

pub is_game_server_account : SteamId → Bool
is_game_server_account s =
    s.account_type == AccountType.game_server || s.account_type == AccountType.anon_game_server

pub is_individual_account : SteamId → Bool
is_individual_account s =
    s.account_type == AccountType.individual || s.account_type == AccountType.console_user

pub is_lobby : SteamId → Bool
is_lobby s =
    s.account_type == AccountType.chat
    && not (bit_and s.account_instance chat_instance_flag_lobby == 0)

-- `IsValid`, its early returns in order.
unfoldable pub is_valid : SteamId → Bool
is_valid s =
    if leb s.account_type AccountType.invalid || leb AccountType.max s.account_type
    then false
    else if leb s.universe Universe.invalid || leb Universe.max s.universe
    then false
    else if s.account_type == AccountType.individual
        && (s.account_id == 0 || not (s.account_instance == user_default_instance))
    then false
    else if s.account_type == AccountType.clan
        && (s.account_id == 0 || not (s.account_instance == 0))
    then false
    else if s.account_type == AccountType.game_server && s.account_id == 0
    then false
    else true
