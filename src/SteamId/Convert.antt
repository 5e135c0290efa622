-- ===== src/SteamId/Convert.antt =====
-- The 64-bit form and the Steam2 pair of a `CSteamID`.
use revive_emu.Base.{ℕ, ◌^◌, ◌<◌, ◌≡◌, arith}
use revive_emu.SteamId.AccountType.{individual}
use revive_emu.SteamId.{
  SteamId, GlobalUserId, user_default_instance, set_from_uint64, convert_to_uint64, set_from_steam2,
  convert_to_steam2, get_static_account_key,
}

-- Every field fits its bit field.
pub record InRange (s : SteamId) : Type 0 where
  pub account : s.account_id < 2 ^ 32
  pub inst : s.account_instance < 2 ^ 20
  pub kind : s.account_type < 2 ^ 4
  pub univ : s.universe < 2 ^ 8

-- An id with its fields in range survives the way to its 64-bit form and back.
pub set_from_uint64-convert_to_uint64 :
    (s : SteamId) → InRange s → set_from_uint64 (convert_to_uint64 s) ≡ s
unfolding set_from_uint64 convert_to_uint64
set_from_uint64-convert_to_uint64 s h = ground arith

-- Every 64-bit word is the form of the id that it is read as.
pub convert_to_uint64-set_from_uint64 :
    (w : ℕ) → w < 2 ^ 64 → convert_to_uint64 (set_from_uint64 w) ≡ w
unfolding set_from_uint64 convert_to_uint64
convert_to_uint64-set_from_uint64 w h = omega arith

-- What is read from any word fits.
pub set_from_uint64-InRange : (w : ℕ) → InRange (set_from_uint64 w)
unfolding set_from_uint64
set_from_uint64-InRange w = omega arith

pub convert_to_uint64-lt : (s : SteamId) → InRange s → convert_to_uint64 s < 2 ^ 64
unfolding convert_to_uint64
convert_to_uint64-lt s h = omega arith

-- `operator==` compares the 64-bit forms: on ids whose fields fit that is equality of the fields.
pub convert_to_uint64_injective :
    (s t : SteamId) → InRange s → InRange t → convert_to_uint64 s ≡ convert_to_uint64 t → s ≡ t
unfolding convert_to_uint64
convert_to_uint64_injective s t h k e = ground arith

-- An individual id of the default instance survives the way to Steam2 form and back in its
-- universe.
pub set_from_steam2-convert_to_steam2 :
    (s : SteamId)
    → InRange s
    → s.account_type ≡ individual
    → s.account_instance ≡ user_default_instance
    → set_from_steam2 (convert_to_steam2 s) s.universe ≡ s
unfolding set_from_steam2 convert_to_steam2
set_from_steam2-convert_to_steam2 s h t i = ground arith

-- A Steam2 id with instance 0, a bit as its high word and a low word below 2 ^ 31 survives the way
-- to a Steam id and back.
pub convert_to_steam2-set_from_steam2 :
    (g : GlobalUserId) (universe : ℕ)
    → g.instance_id ≡ 0
    → g.high32bits < 2
    → g.low32bits < 2 ^ 31
    → convert_to_steam2 (set_from_steam2 g universe) ≡ g
unfolding set_from_steam2 convert_to_steam2
convert_to_steam2-set_from_steam2 g universe i h l = ground arith

-- The static key of an id in range is the 64-bit form of the same id with its instance cleared.
pub get_static_account_key_lem :
    (s : SteamId)
    → InRange s
    → get_static_account_key s ≡ convert_to_uint64 (record s { account_instance = 0 })
unfolding get_static_account_key convert_to_uint64
get_static_account_key_lem s h = omega arith

-- An id with its fields in range survives the way to its 64-bit form and back, every 64-bit word
-- is the form of the id that it is read as, and the static key of the id is the 64-bit form of the
-- same id with its instance cleared.
pub uint64_forms :
    (s : SteamId) (w : ℕ)
    → InRange s
    → w < 2 ^ 64
    → (set_from_uint64 (convert_to_uint64 s) ≡ s)
      × (convert_to_uint64 (set_from_uint64 w) ≡ w)
      × (get_static_account_key s ≡ convert_to_uint64 (record s { account_instance = 0 }))
uint64_forms s w h l = (
  set_from_uint64-convert_to_uint64 s h,
  convert_to_uint64-set_from_uint64 w l,
  get_static_account_key_lem s h,
)
