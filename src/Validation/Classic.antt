-- ===== src/Validation/Classic.antt =====
-- A classic ticket on the two ways into the emulator: through the validation of user id tickets,
-- and through `GSSendSteam2UserConnect`.
use revive_emu.Base.{ℕ, ◌+◌, ◌≡◌, ◌≢◌, refl, ◌∙◌, ap, Bool, false, none, some, ◌==◌, arith}
use revive_emu.Base.Read.{read_le}
use revive_emu.Base.Bytes.{Memory, IsBytes}
use revive_emu.SteamId.{convert_to_steam2}
use revive_emu.Auth.Memory.{read_le32, read_le32_lem}
use revive_emu.Auth.Classic.{ticket_size_classic, classic_info, validate_classic, write_out}
use revive_emu.Auth.Ticket.{valid, parse_and_validate}
use revive_emu.Auth.Accept.{IsClassicTicket, classic_info-steam_id, IsClassicTicket-check_fields}
use revive_emu.Auth.Agree.{classic_identity, accepts}
use revive_emu.Validation.{
  Table, Handle, zero_handle, rev, rev_signature, error_none, inactive, check_other, check_ticket,
  start_validating, own_verdict, user_of, handle_at, process_ongoing,
}
use revive_emu.Validation.Handles.{process-start}

read_le-read_le32 : (p : Memory) (i : ℕ) → IsBytes p → read_le 4 p i ≡ read_le32 p i
unfolding read_le
read_le-read_le32 p i h =
    let one : i + 1 + 1 ≡ i + 2 = omega arith in
    let two : i + 1 + 1 + 1 ≡ i + 3 = omega arith in
    omega (arith, read_le32_lem p i h, ap p one, ap p two)

classic_out :
    (p : Memory)
    → IsBytes p
    → IsClassicTicket p
    → (validate_classic (some p) ticket_size_classic).1 ≡ some (classic_info p)
unfolding validate_classic write_out
classic_out p h t = ground (arith, IsClassicTicket-check_fields p h t)

-- The handle that a classic ticket is given.
classic_handle : Memory → ℕ → Handle
classic_handle p ip = record zero_handle {
  ip = ip;
  client_type = rev;
  steam3_id = (classic_info p).steam_id;
  ticket_ip = 0;
  return_code = error_none;
}

check_classic :
    (allow : Bool) (p : Memory) (ip : ℕ)
    → IsBytes p
    → IsClassicTicket p
    → check_ticket allow p ticket_size_classic ip ≡ classic_handle p ip
unfolding check_ticket check_other classic_handle
check_classic allow p ip h t =
    let other : (read_le 4 p 0 == rev_signature) ≡ false =
      ground (arith, read_le-read_le32 p 0 h, t.header) in
    rw (other, classic_out p h t) refl

-- A ticket of bytes with the classic layout, at 152 bytes, names one user on both ways: the game
-- server's parser accepts it with an identity, and the validation without the original library,
-- under a new address that is not 0, answers no error and the Steam2 form of that identity's id.
pub process_ongoing-classic :
    (p : Memory) (t : Table) (allow : Bool) (ip address : ℕ)
    → IsBytes p
    → IsClassicTicket p
    → address ≢ inactive
    → handle_at address t ≡ none
    → let r = start_validating t none allow p ticket_size_classic ip address in
      (parse_and_validate (some p) ticket_size_classic ≡ (valid, some (classic_identity p)))
      × (process_ongoing r.0 none r.1
          ≡ some (record {
            code = error_none;
            user = some (convert_to_steam2 (classic_identity p).steam_id);
            client_ip = some 0;
            token_size = some 0;
          }))
unfolding own_verdict user_of classic_handle
process_ongoing-classic p t allow ip address h c z e =
    let (at_address, pending, done) =
      process-start t allow p ticket_size_classic ip address z e refl in
    let same : (classic_info p).steam_id ≡ (classic_identity p).steam_id =
      ground (arith, classic_info-steam_id p h c.high, c.relation) in
    (
      accepts p h c,
      rw at_address (
          done
          ∙ ap (λ (k : Handle). some (own_verdict k)) (check_classic allow p ip h c)
          ∙ rw same refl),
    )
