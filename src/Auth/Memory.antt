-- ===== src/Auth/Memory.antt =====
-- Reads through a pointer into a ticket.
use revive_emu.Base.{ℕ, ◌+◌, ◌*◌, ◌^◌, ◌<◌, ◌≡◌, bit_or, arith}
use revive_emu.Base.Bytes.{Memory, IsBytes}
use revive_emu.Base.Bits.{bit_or_fields}

-- `ReadLE32(p + i)`
unfoldable pub read_le32 : Memory → ℕ → ℕ
read_le32 p i =
    bit_or (bit_or (bit_or (p i) (p (i + 1) * 2 ^ 8)) (p (i + 2) * 2 ^ 16)) (p (i + 3) * 2 ^ 24)

-- Four bytes are read as the number that they are in base 256, lowest first.
pub read_le32_lem :
    (p : Memory) (i : ℕ)
    → IsBytes p
    → read_le32 p i ≡ p i + p (i + 1) * 2 ^ 8 + p (i + 2) * 2 ^ 16 + p (i + 3) * 2 ^ 24
unfolding read_le32
read_le32_lem p i h = rw (
  bit_or_fields 8 (p i) (p (i + 1)) (h i),
  bit_or_fields 16 (p i + p (i + 1) * 2 ^ 8) (p (i + 2)) (omega (arith, h i, h (i + 1))),
  bit_or_fields 24 (p i + p (i + 1) * 2 ^ 8 + p (i + 2) * 2 ^ 16) (p (i + 3))
      (omega (arith, h i, h (i + 1), h (i + 2))),
)

pub read_le32-lt : (p : Memory) (i : ℕ) → IsBytes p → read_le32 p i < 2 ^ 32
read_le32-lt p i h = omega (arith, read_le32_lem p i h, h i, h (i + 1), h (i + 2), h (i + 3))
