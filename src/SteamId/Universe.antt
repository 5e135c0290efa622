-- ===== src/SteamId/Universe.antt =====
-- The values of `EUniverse` (Steam/steam/Steam3ID.h).
use Prim.Native.Nat.{ℕ}

abbrev pub invalid : ℕ
invalid = 0

abbrev pub public : ℕ
public = 1

abbrev pub beta : ℕ
beta = 2

abbrev pub internal : ℕ
internal = 3

abbrev pub dev : ℕ
dev = 4

abbrev pub max : ℕ
max = 5
