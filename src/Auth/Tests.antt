-- ===== src/Auth/Tests.antt =====
-- A classic ticket byte by byte, and the theorems at it.
use revive_emu.Base.{ℕ, zero, suc, ◌≡◌, ◌≢◌, ◌↔◌, refl, none, some, List, [], ◌∷◌, ◌<◌, arith}
use revive_emu.Base.Bytes.{Memory, IsBytes}
use revive_emu.SteamId.{is_valid, set_from_uint64}
use revive_emu.Auth.Memory.{read_le32}
use revive_emu.Auth.Classic.{ticket_size_classic, validate_classic}
use revive_emu.Auth.Ticket
use revive_emu.Auth.Classic
use revive_emu.Auth.Ticket.{
  Identity, valid, unsupported_format, parse_and_validate, ticket_fingerprint,
}
use revive_emu.Auth.Accept.{IsClassicTicket, validate_classic_iff}
use revive_emu.Auth.Agree.{classic_identity, parse_and_validate_identity}
use revive_emu.Auth.Fingerprint.{ticket_fingerprint_one_byte}

abbrev pub AllBytes : List ℕ → Type 0
AllBytes [] = Unit {0}
AllBytes (b ∷ bs) = (b < 256) × AllBytes bs

-- The head of a ticket for hash 12345; what follows is zeros.
abbrev pub ticket_head : List ℕ
ticket_head =
    0x53 ∷ 0 ∷ 0 ∷ 0 ∷ 0x39 ∷ 0x30 ∷ 0 ∷ 0 ∷ 0x76 ∷ 0x65 ∷ 0x72 ∷ 0 ∷ 0 ∷ 0 ∷ 0 ∷ 0 ∷ 0x72 ∷ 0x60
    ∷ 0 ∷ 0 ∷ 1 ∷ 0 ∷ 0x10 ∷ 1 ∷ []

abbrev pub at_byte : List ℕ → Memory
at_byte [] i = 0
at_byte (b ∷ bs) zero = b
at_byte (b ∷ bs) (suc i) = at_byte bs i

pub at_byte-IsBytes : (bs : List ℕ) → AllBytes bs → IsBytes (at_byte bs)
at_byte-IsBytes [] h i = omega arith
at_byte-IsBytes (b ∷ bs) h zero = h.0
at_byte-IsBytes (b ∷ bs) h (suc i) = at_byte-IsBytes bs h.1 i

pub accepted : (parse_and_validate (some (at_byte ticket_head)) 152).0 ≡ valid
unfolding parse_and_validate validate_classic read_le32 is_valid set_from_uint64
accepted = refl

truncated : (parse_and_validate none 0).0 ≡ Ticket.invalid_length
unfolding parse_and_validate
truncated = refl

unknown_format : parse_and_validate (some (at_byte [])) 152 ≡ (unsupported_format, none)
unfolding parse_and_validate read_le32
unknown_format = refl

validate_classic_iff_example :
    ((validate_classic (some (at_byte ticket_head)) 152).0 ≡ Classic.valid)
    ↔ (152 ≡ ticket_size_classic) × IsClassicTicket (at_byte ticket_head)
validate_classic_iff_example =
    validate_classic_iff (at_byte ticket_head) 152 (at_byte-IsBytes ticket_head (omega arith))

parse_and_validate_identity_example :
    parse_and_validate (some (at_byte ticket_head)) 152
    ≡ (valid, some (classic_identity (at_byte ticket_head)))
parse_and_validate_identity_example =
    (parse_and_validate_identity (at_byte ticket_head) 152
      (at_byte-IsBytes ticket_head (omega arith)) accepted).2

ticket_fingerprint_one_byte_example :
    ticket_fingerprint (some (at_byte (1 ∷ 2 ∷ 3 ∷ []))) 3
    ≢ ticket_fingerprint (some (at_byte (1 ∷ 7 ∷ 3 ∷ []))) 3
ticket_fingerprint_one_byte_example =
    ticket_fingerprint_one_byte (at_byte (1 ∷ 2 ∷ 3 ∷ [])) (at_byte (1 ∷ 7 ∷ 3 ∷ [])) 3 1
      (at_byte-IsBytes (1 ∷ 2 ∷ 3 ∷ []) (omega arith))
      (at_byte-IsBytes (1 ∷ 7 ∷ 3 ∷ []) (omega arith)) (omega arith) same (omega arith)
  where
    same : (j : ℕ) → j ≢ 1 → at_byte (1 ∷ 2 ∷ 3 ∷ []) j ≡ at_byte (1 ∷ 7 ∷ 3 ∷ []) j
    same zero h = refl
    same (suc zero) h = absurd (h refl)
    same (suc (suc j)) h = refl
