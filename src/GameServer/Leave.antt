-- ===== src/GameServer/Leave.antt =====
-- `GSRemoveUserConnect` and `GSSendUserDisconnect`: what is gone afterwards, and what stays.
pub mod Queue
use revive_emu.Base.{
  ℕ, ◌≡◌, ◌≢◌, ◌⊎◌, inl, inr, true, false, none, some, ◌==◌, Bool-cases, Option-cases, arith,
}
use revive_emu.Base.Map.{find}
use revive_emu.SteamId.{SteamId, convert_to_uint64}
use revive_emu.Runtime.{RuntimeState, Session}
use revive_emu.Lifecycle.Steps.{erased}
use revive_emu.Sessions.Table.{IsStaged}
use revive_emu.Sessions.Moves.{
  remove_steam2_user_present, remove_steam2_user_absent, disconnect_present, disconnect_absent,
}
use revive_emu.Callbacks.{erase_behind_front, remove_pending_auth_callbacks}
use revive_emu.Callbacks.Queue.{with_callbacks}
use revive_emu.GameServer.{remove_user_connect, send_user_disconnect}

-- The state without an account's session and its pending callbacks of one generation.
abbrev pub left_state : RuntimeState → ℕ → ℕ → RuntimeState
left_state s account generation =
    with_callbacks (erased s account)
      (erase_behind_front s.callback_in_flight account generation s.callbacks).0

-- The outcomes of a removal, with the loop over the queue.
pub remove_user_connect_cases :
    (s : RuntimeState) (account : ℕ)
    → ((x : Session) → find account s.steam2_users ≡ some x → IsStaged x)
    → ((find account s.steam2_users ≡ none)
        × (remove_user_connect s account
            ≡ with_callbacks s (erase_behind_front s.callback_in_flight account 0 s.callbacks).0))
      ⊎ ((x : Session) × (find account s.steam2_users ≡ some x)
          × (remove_user_connect s account ≡ left_state s account x.generation))
unfolding remove_user_connect remove_pending_auth_callbacks
remove_user_connect_cases s account t = elim (Option-cases (find account s.steam2_users)) [
  | inl absent ↦ inl (absent, ground (arith, remove_steam2_user_absent s account absent))
  | inr (x, e) ↦ inr (x, e, ground (arith, remove_steam2_user_present s account x e (t x e)))
]

-- The outcomes of a disconnect, with the loop over the queue.
pub send_user_disconnect_cases :
    (s : RuntimeState) (id : SteamId) (account : ℕ)
    → ((x : Session) → find account s.steam2_users ≡ some x → IsStaged x)
    → ((find account s.steam2_users ≡ none) × (send_user_disconnect s id account ≡ (s, true)))
      ⊎ ((x : Session) × (find account s.steam2_users ≡ some x)
          × (x.identity_bound ≡ true)
          × (convert_to_uint64 x.steam_id ≢ convert_to_uint64 id)
          × (send_user_disconnect s id account ≡ (s, false)))
      ⊎ ((x : Session) × (find account s.steam2_users ≡ some x)
          × ((x.identity_bound ≡ false) ⊎ (convert_to_uint64 x.steam_id ≡ convert_to_uint64 id))
          × (send_user_disconnect s id account ≡ (left_state s account x.generation, true)))
unfolding send_user_disconnect remove_pending_auth_callbacks
send_user_disconnect_cases s id account t = elim (Option-cases (find account s.steam2_users)) [
  | inl absent ↦ inl (absent, ground (arith, disconnect_absent s account id absent))
  | inr (x, e) ↦
      let done = disconnect_present s account id x e (t x e) in
      elim (Bool-cases x.identity_bound) [
        | inr free ↦ inr (inr (x, e, inl free, ground (arith, done)))
        | inl bound ↦ elim (Bool-cases (convert_to_uint64 x.steam_id == convert_to_uint64 id)) [
          | inl same ↦ inr (inr (x, e, inr (ground arith), ground (arith, done)))
          | inr other ↦ inr (inl (x, e, bound, ground arith, ground (arith, done)))
        ]
      ]
]
