-- ===== src/Validation/Tests.antt =====
-- A fresh table of handles, an issued and a classic ticket, and the theorems at them.
use revive_emu.Base.{◌≡◌, refl, true, false, none, some, [], arith}
use revive_emu.Base.Bytes.{Memory}
use revive_emu.SteamId.{SteamId, convert_to_steam2}
use revive_emu.Auth.Memory.{read_le32}
use revive_emu.Auth.Classic.{ticket_size_classic}
use revive_emu.Auth.Ticket.{valid, parse_and_validate}
use revive_emu.Auth.Accept.{IsClassicTicket}
use revive_emu.Auth.Agree.{classic_identity}
use revive_emu.Auth.Tests.{ticket_head, at_byte, at_byte-IsBytes}
use revive_emu.Validation.{
  error_none, error_not_finished, get_encrypted_user_id_ticket, start_validating, process_ongoing,
  abort_ongoing, handle_at,
}
use revive_emu.Validation.Issue.{process_ongoing-get_encrypted}
use revive_emu.Validation.Handles.{abort_ongoing-start_validating}
use revive_emu.Validation.Classic.{process_ongoing-classic}

abbrev player : SteamId
player = record { account_id = 12345; account_instance = 1; account_type = 1; universe = 1 }

abbrev blank : Memory
blank i = 0

process_ongoing-get_encrypted_example :
    let ticket = get_encrypted_user_id_ticket player blank in
    let r = start_validating [] none false ticket.0 ticket.1 0x7f000001 4096 in
    (r.2 ≡ error_not_finished)
    × (process_ongoing r.0 none r.1
        ≡ some (record {
          code = error_none;
          user = some (convert_to_steam2 player);
          client_ip = some 0;
          token_size = some 0;
        }))
unfolding handle_at
process_ongoing-get_encrypted_example =
    process_ongoing-get_encrypted player blank [] false 0x7f000001 4096 (omega arith) (omega arith)
      refl

abort_ongoing-start_validating_example :
    let r = start_validating [] none true blank 20 0x7f000001 4096 in abort_ongoing r.0 r.1 ≡ []
unfolding handle_at
abort_ongoing-start_validating_example =
    abort_ongoing-start_validating [] none true blank 20 0x7f000001 4096 (omega arith) refl

head-IsClassicTicket : IsClassicTicket (at_byte ticket_head)
unfolding read_le32
head-IsClassicTicket = record {
  header = refl;
  magic = refl;
  reserved = refl;
  high = refl;
  relation = refl;
  low = omega arith;
}

process_ongoing-classic_example :
    let p = at_byte ticket_head in
    let r = start_validating [] none false p ticket_size_classic 0x7f000001 4096 in
    (parse_and_validate (some p) ticket_size_classic ≡ (valid, some (classic_identity p)))
    × (process_ongoing r.0 none r.1
        ≡ some (record {
          code = error_none;
          user = some (convert_to_steam2 (classic_identity p).steam_id);
          client_ip = some 0;
          token_size = some 0;
        }))
unfolding handle_at
process_ongoing-classic_example =
    process_ongoing-classic (at_byte ticket_head) [] false 0x7f000001 4096
      (at_byte-IsBytes ticket_head (omega arith)) head-IsClassicTicket (omega arith) refl
