-- ===== src/Base/Bytes.antt =====
-- Machine words of unsigned types, and bytes in memory.
use Prim.Native.Nat.{ℕ, ◌^◌, ◌<◌}

abbrev pub u16_mod : ℕ
u16_mod = 2 ^ 16

abbrev pub u32_mod : ℕ
u32_mod = 2 ^ 32

abbrev pub u64_mod : ℕ
u64_mod = 2 ^ 64

-- What a pointer to bytes points at: the byte at each offset.
abbrev pub Memory : Type 0
Memory = ℕ → ℕ

abbrev pub IsBytes : Memory → Type 0
IsBytes p = (i : ℕ) → p i < 256
