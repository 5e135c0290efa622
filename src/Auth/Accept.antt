-- ===== src/Auth/Accept.antt =====
-- Which tickets the classic validator accepts, and the identity that it reads from them.
use revive_emu.Base.{ℕ, ◌+◌, ◌*◌, ◌%◌, ◌^◌, ◌<◌, ◌≡◌, ◌≢◌, ◌↔◌, ◌∙◌, ap, true, some, bit_or, arith}
use revive_emu.Base.Bytes.{Memory, IsBytes, u32_mod}
use revive_emu.Base.Bits.{bit_or_shifted}
use revive_emu.SteamId.{SteamId, set_from_uint64, is_valid}
use revive_emu.SteamId.AccountType
use revive_emu.SteamId.Universe
use revive_emu.Auth.Memory.{read_le32, read_le32-lt}
use revive_emu.Auth.Classic.{
  valid, classic_header, classic_magic, classic_steam_id_high, ticket_size_classic, classic_info,
  check_fields, validate_classic,
}

-- The layout of a classic ticket that names a user: the four constants, the low word of the id as
-- twice the hash in 32 bits, and neither of the two 0.
pub record IsClassicTicket (p : Memory) : Type 0 where
  pub header : read_le32 p 0x00 ≡ classic_header
  pub magic : read_le32 p 0x08 ≡ classic_magic
  pub reserved : read_le32 p 0x0c ≡ 0
  pub high : read_le32 p 0x14 ≡ classic_steam_id_high
  pub relation : read_le32 p 0x10 ≡ read_le32 p 0x04 * 2 % u32_mod
  pub low : read_le32 p 0x10 ≢ 0

-- The individual account of the default instance in the public universe.
abbrev pub public_individual : ℕ → SteamId
public_individual account = record {
  account_id = account;
  account_instance = 1;
  account_type = AccountType.individual;
  universe = Universe.public;
}

classic_word :
    (p : Memory)
    → IsBytes p
    → read_le32 p 0x14 ≡ classic_steam_id_high
    → bit_or (read_le32 p 0x14 * 2 ^ 32) (read_le32 p 0x10)
      ≡ classic_steam_id_high * 2 ^ 32 + read_le32 p 0x10
classic_word p h e =
    omega
      (arith, bit_or_shifted 32 (read_le32 p 0x14) (read_le32 p 0x10) (read_le32-lt p 0x10 h), e)

split_classic_word :
    (low : ℕ)
    → low < 2 ^ 32
    → set_from_uint64 (classic_steam_id_high * 2 ^ 32 + low) ≡ public_individual low
unfolding set_from_uint64
split_classic_word low h = ground arith

-- The constant upper word makes the id a public individual account with the low word as number.
pub classic_info-steam_id :
    (p : Memory)
    → IsBytes p
    → read_le32 p 0x14 ≡ classic_steam_id_high
    → (classic_info p).steam_id ≡ public_individual (read_le32 p 0x10)
unfolding classic_info
classic_info-steam_id p h e =
    ap set_from_uint64 (classic_word p h e)
    ∙ split_classic_word (read_le32 p 0x10) (read_le32-lt p 0x10 h)

is_valid-public_individual :
    (account : ℕ) → account ≢ 0 → is_valid (public_individual account) ≡ true
unfolding is_valid
is_valid-public_individual account h = ground arith

pub check_fields-IsClassicTicket : (p : Memory) → check_fields p ≡ valid → IsClassicTicket p
unfolding check_fields
check_fields-IsClassicTicket p e = ground arith

pub IsClassicTicket-check_fields :
    (p : Memory) → IsBytes p → IsClassicTicket p → check_fields p ≡ valid
unfolding check_fields
IsClassicTicket-check_fields p h t =
    ground
      (arith, classic_info-steam_id p h t.high, is_valid-public_individual (read_le32 p 0x10) t.low)

-- A ticket of bytes that is not NULL passes exactly if it has 152 of them and the classic layout.
pub validate_classic_iff :
    (p : Memory) (size : ℕ)
    → IsBytes p
    → ((validate_classic (some p) size).0 ≡ valid)
      ↔ ((size ≡ ticket_size_classic) × IsClassicTicket p)
unfolding validate_classic
validate_classic_iff p size h = (
  λ e. (ground arith, check_fields-IsClassicTicket p (ground arith)),
  λ t. ground (arith, IsClassicTicket-check_fields p h t.1),
)
