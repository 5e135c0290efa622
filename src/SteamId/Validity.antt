-- ===== src/SteamId/Validity.antt =====
-- What `CSteamID::IsValid` accepts.
use revive_emu.Base.{ℕ, ◌<◌, ◌≡◌, ◌≢◌, ◌↔◌, true, arith}
use revive_emu.SteamId.AccountType.{individual, clan, game_server}
use revive_emu.SteamId.{SteamId, is_valid, set}

-- The rule that `IsValid` decides: known type and universe, an account number where the type needs
-- one, and the one instance that the type allows.
pub record Valid (s : SteamId) : Type 0 where
  pub typed : (0 < s.account_type) × (s.account_type < 11)
  pub placed : (0 < s.universe) × (s.universe < 5)
  pub person : s.account_type ≡ individual → (s.account_id ≢ 0) × (s.account_instance ≡ 1)
  pub group : s.account_type ≡ clan → (s.account_id ≢ 0) × (s.account_instance ≡ 0)
  pub server : s.account_type ≡ game_server → s.account_id ≢ 0

is_valid-Valid : (s : SteamId) → is_valid s ≡ true → Valid s
unfolding is_valid
is_valid-Valid s h = ground arith

Valid-is_valid : (s : SteamId) → Valid s → is_valid s ≡ true
unfolding is_valid
Valid-is_valid s h = ground arith

-- `IsValid` answers true exactly on the ids that meet the rule.
pub is_valid_iff : (s : SteamId) → (is_valid s ≡ true) ↔ Valid s
is_valid_iff s = (is_valid-Valid s, Valid-is_valid s)

-- `Set` makes a valid id from every account number but 0, for each known universe and type.
pub set-is_valid :
    (account universe account_type : ℕ)
    → account ≢ 0
    → (0 < universe) × (universe < 5)
    → (0 < account_type) × (account_type < 11)
    → is_valid (set account universe account_type) ≡ true
unfolding is_valid set
set-is_valid account universe account_type a u t = ground arith
