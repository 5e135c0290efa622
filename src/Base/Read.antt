-- ===== src/Base/Read.antt =====
-- Reads of little-endian integers and of runs of bytes through a pointer.
use Prim.Native.Nat.{ℕ, zero, suc, ◌+◌, ◌*◌}
use mathlib.Core.List.{List, [], ◌∷◌}
use revive_emu.Base.Bytes.{Memory}

-- `memcpy` of `n` bytes into an integer of that size, on a little-endian machine.
unfoldable pub read_le : ℕ → Memory → ℕ → ℕ
read_le zero p i = 0
read_le (suc n) p i = p i + 256 * read_le n p (i + 1)

-- The `n` bytes from offset `i` on.
unfoldable pub read_bytes : Memory → ℕ → ℕ → List ℕ
read_bytes p i zero = []
read_bytes p i (suc n) = p i ∷ read_bytes p (i + 1) n
