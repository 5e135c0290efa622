-- ===== src/Auth/Agree.antt =====
-- `ParseAndValidateAuthTicket` against the classic validator behind it.
use revive_emu.Base.{ℕ, ◌*◌, ◌%◌, ◌^◌, ◌≡◌, some, arith}
use revive_emu.Base.Bytes.{Memory, IsBytes, u32_mod}
use revive_emu.SteamId.{convert_to_steam2}
use revive_emu.Auth.Memory.{read_le32}
use revive_emu.Auth.Classic.{
  ClassicResult, ticket_size_classic, classic_info, check_fields, validate_classic, write_out,
}
use revive_emu.Auth.Ticket.{
  valid, Identity, classic_rev_emu, ticket_fingerprint, parse_and_validate,
}
use revive_emu.Auth.Accept.{
  IsClassicTicket, public_individual, classic_info-steam_id, check_fields-IsClassicTicket,
  IsClassicTicket-check_fields,
}

-- The identity of a valid ticket.
abbrev pub classic_identity : Memory → Identity
classic_identity p = record {
  type_of = classic_rev_emu;
  steam_id = public_individual (read_le32 p 0x04 * 2 % u32_mod);
  fingerprint = ticket_fingerprint (some p) ticket_size_classic;
  classic_hash = read_le32 p 0x04;
  classic_steam_id_low = read_le32 p 0x04 * 2 % u32_mod;
  classic_steam_id_high = 0x1100001;
}

pub accepts :
    (p : Memory)
    → IsBytes p
    → IsClassicTicket p
    → parse_and_validate (some p) ticket_size_classic ≡ (valid, some (classic_identity p))
unfolding parse_and_validate validate_classic classic_info
accepts p h t = ground (arith, IsClassicTicket-check_fields p h t, classic_info-steam_id p h t.high)

accepted-check_fields :
    (p : Memory) (size : ℕ)
    → (parse_and_validate (some p) size).0 ≡ valid
    → (size ≡ ticket_size_classic) × (check_fields p ≡ ClassicResult.valid)
unfolding parse_and_validate validate_classic write_out
accepted-check_fields p size e = ground arith

-- A ticket of bytes that passes has 152 of them and the classic layout, and the caller receives
-- the identity that its bytes name: kind, hash, words and fingerprint, under the public individual
-- account of twice the hash in 32 bits, whose Steam2 form is STEAM_0:0:n with n the lower 31 bits
-- of the hash.
pub parse_and_validate_identity :
    (p : Memory) (size : ℕ)
    → IsBytes p
    → (parse_and_validate (some p) size).0 ≡ valid
    → (size ≡ ticket_size_classic)
      × IsClassicTicket p
      × (parse_and_validate (some p) size ≡ (valid, some (classic_identity p)))
      × (convert_to_steam2 (classic_identity p).steam_id
          ≡ record { instance_id = 0; low32bits = read_le32 p 0x04 % 2 ^ 31; high32bits = 0 })
unfolding convert_to_steam2
parse_and_validate_identity p size h e =
    let (s, c) = accepted-check_fields p size e in
    let t = check_fields-IsClassicTicket p c in (s, t, rw s (accepts p h t), ground arith)
