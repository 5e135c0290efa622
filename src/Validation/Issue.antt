-- ===== src/Validation/Issue.antt =====
-- A ticket that `SteamGetEncryptedUserIDTicket` wrote, on its way through the validation.
use revive_emu.Base.{
  ℕ, ◌+◌, ◌*◌, ◌/◌, ◌%◌, ◌^◌, ◌<◌, ◌≡◌, ◌≢◌, refl, ◌∙◌, ap, Bool, none, some, arith,
}
use revive_emu.Base.Read.{read_le}
use revive_emu.Base.Bytes.{Memory}
use revive_emu.SteamId.{SteamId, convert_to_uint64, convert_to_steam2}
use revive_emu.SteamId.Convert.{InRange, set_from_uint64-convert_to_uint64, convert_to_uint64-lt}
use revive_emu.Callbacks.{le_bytes}
use revive_emu.Validation.{
  Table, Handle, zero_handle, rev_signature, rev_version, rev_size, error_none, error_not_finished,
  store, ticket_bytes, get_encrypted_user_id_ticket, check_rev, check_ticket, start_validating,
  own_verdict, user_of, inactive, handle_at, process_ongoing,
}
use revive_emu.Validation.Handles.{process-start}

-- Eight bytes of a word are the word.
join_bytes :
    (w : ℕ)
    → w < 2 ^ 64
    → w % 256
        + 256
          * (w / 256 % 256
              + 256
                * (w / 256 / 256 % 256
                    + 256
                      * (w / 256 / 256 / 256 % 256
                          + 256
                            * (w / 256 / 256 / 256 / 256 % 256
                                + 256
                                  * (w / 256 / 256 / 256 / 256 / 256 % 256
                                      + 256
                                        * (w / 256 / 256 / 256 / 256 / 256 / 256 % 256
                                            + 256
                                              * (w / 256 / 256 / 256 / 256 / 256 / 256 / 256 % 256
                                                  + 256 * 0)))))))
      ≡ w
join_bytes w h = omega arith

read_id :
    (id : SteamId) (p : Memory)
    → InRange id
    → read_le 8 (store (ticket_bytes id) p) 0x08 ≡ convert_to_uint64 id
unfolding read_le store ticket_bytes le_bytes
read_id id p h = join_bytes (convert_to_uint64 id) (convert_to_uint64-lt id h)

read_signature :
    (id : SteamId) (p : Memory) → read_le 4 (store (ticket_bytes id) p) 0 ≡ rev_signature
unfolding read_le store ticket_bytes le_bytes
read_signature id p = refl

read_version :
    (id : SteamId) (p : Memory) → read_le 4 (store (ticket_bytes id) p) 0x04 ≡ rev_version
unfolding read_le store ticket_bytes le_bytes
read_version id p = refl

read_ip : (id : SteamId) (p : Memory) → read_le 4 (store (ticket_bytes id) p) 0x10 ≡ 0
unfolding read_le store ticket_bytes le_bytes
read_ip id p = refl

-- The handle of an accepted ticket of the emulator.
abbrev pub rev_handle : SteamId → ℕ → Handle
rev_handle id ip = record zero_handle { steam3_id = id; ip = ip }

pub check_ticket-get_encrypted :
    (id : SteamId) (p : Memory) (allow : Bool) (ip : ℕ)
    → InRange id
    → check_ticket allow (store (ticket_bytes id) p) rev_size ip ≡ rev_handle id ip
unfolding check_ticket check_rev
check_ticket-get_encrypted id p allow ip h =
    rw (read_signature id p, read_version id p, read_id id p h, read_ip id p)
      (ap (λ (s : SteamId). rev_handle s ip) (set_from_uint64-convert_to_uint64 id h))

own_verdict-rev :
    (id : SteamId) (ip : ℕ)
    → own_verdict (rev_handle id ip) ≡ record {
      code = error_none;
      user = some (convert_to_steam2 id);
      client_ip = some 0;
      token_size = some 0;
    }
unfolding own_verdict user_of
own_verdict-rev id ip = refl

-- A ticket that the emulator issues for an id with its fields in range, validated without the
-- original library under a new address that is not 0, is pending at first and then answered with
-- no error, the Steam2 form of that id, client address 0 and an empty token.
pub process_ongoing-get_encrypted :
    (id : SteamId) (output : Memory) (t : Table) (allow : Bool) (ip address : ℕ)
    → InRange id
    → address ≢ inactive
    → handle_at address t ≡ none
    → let ticket = get_encrypted_user_id_ticket id output in
      let r = start_validating t none allow ticket.0 ticket.1 ip address in
      (r.2 ≡ error_not_finished)
      × (process_ongoing r.0 none r.1
          ≡ some (record {
            code = error_none;
            user = some (convert_to_steam2 id);
            client_ip = some 0;
            token_size = some 0;
          }))
unfolding get_encrypted_user_id_ticket
process_ongoing-get_encrypted id output t allow ip address h z e =
    let p : Memory = store (ticket_bytes id) output in
    let (at_address, pending, done) = process-start t allow p rev_size ip address z e refl in
    (
      pending,
      rw at_address (
          done
          ∙ ap (λ (k : Handle). some (own_verdict k))
              (check_ticket-get_encrypted id output allow ip h)
          ∙ ap some (own_verdict-rev id ip)),
    )
