-- ===== src/SteamId/AccountType.antt =====
-- The values of `EAccountType` (Steam/steam/Steam3ID.h).
use Prim.Native.Nat.{ℕ}

abbrev pub invalid : ℕ
invalid = 0

abbrev pub individual : ℕ
individual = 1

abbrev pub multiseat : ℕ
multiseat = 2

abbrev pub game_server : ℕ
game_server = 3

abbrev pub anon_game_server : ℕ
anon_game_server = 4

abbrev pub pending : ℕ
pending = 5

abbrev pub content_server : ℕ
content_server = 6

abbrev pub clan : ℕ
clan = 7

abbrev pub chat : ℕ
chat = 8

abbrev pub console_user : ℕ
console_user = 9

abbrev pub anon_user : ℕ
anon_user = 10

abbrev pub max : ℕ
max = 11
