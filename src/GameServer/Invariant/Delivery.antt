-- ===== src/GameServer/Invariant/Delivery.antt =====
-- The invariant in the calls of the consumer, and in `LogOn` and `GSSendSteam3UserConnect`.
use revive_emu.Base.{
  ℕ, ◌≡◌, inl, inr, refl, sym, ◌∙◌, ap, Bool, true, false, not, ◌&&◌, ◌||◌, none, List, [], ◌∷◌,
  ◌==◌, Bool-cases,
}
use revive_emu.Base.Map.{find}
use revive_emu.SteamId.{SteamId}
use revive_emu.Runtime.{RuntimeState, QueuedCallback, the_pipe}
use revive_emu.Callbacks.{
  queue_client_approve, queue_callback, get_next_callback, hand_out, consume_front,
  free_last_callback,
}
use revive_emu.GameServer.{log_on, send_steam3_user_connect}
use revive_emu.GameServer.Invariant.Consume.{queue-Inv, consume_front-Inv}
use revive_emu.GameServer.Invariant.Base.{Inv}

-- `Inv` reads the table, the counter and the queue alone.
pub same-Inv :
    (s t : RuntimeState)
    → t.steam2_users ≡ s.steam2_users
    → t.next_client_generation ≡ s.next_client_generation
    → t.callbacks ≡ s.callbacks
    → Inv s
    → Inv t
same-Inv s t u g q v = record {
  table = rw (u, g) v.table;
  queue_room = rw q v.queue_room;
  announced = λ k x e. rw q (v.announced k x (sym (ap (find k) u) ∙ e));
}

-- Releasing the callback that was handed out keeps the invariant.
pub free_last_callback-Inv : (s : RuntimeState) (pipe : ℕ) → Inv s → Inv (free_last_callback s pipe)
unfolding free_last_callback
free_last_callback-Inv s pipe v = elim (Bool-cases (pipe == the_pipe && s.callback_in_flight)) [
  | inl held ↦ rw held (
      same-Inv (consume_front s s.callbacks) _ refl refl refl
        (consume_front-Inv s s.callbacks refl v))
  | inr idle ↦ rw idle (same-Inv s _ refl refl refl v)
]

hand_out-Inv : (s : RuntimeState) (q : List QueuedCallback) → Inv s → Inv (hand_out s q).0
unfolding hand_out
hand_out-Inv s [] v = v
hand_out-Inv s (c ∷ q) v = same-Inv s _ refl refl refl v

-- Taking the next callback keeps the invariant.
pub get_next_callback-Inv :
    (s : RuntimeState) (pipe : ℕ) (has_msg : Bool)
    → Inv s
    → Inv (get_next_callback s pipe has_msg).0
unfolding get_next_callback
get_next_callback-Inv s pipe has_msg v =
    elim (Bool-cases (not has_msg || not (pipe == the_pipe) || s.callback_in_flight)) [
      | inl refused ↦ rw refused v
      | inr granted ↦ rw granted (hand_out-Inv s s.callbacks v)
    ]

pub log_on-Inv : (s : RuntimeState) → Inv s → Inv (log_on s)
unfolding log_on
log_on-Inv s v = elim (Bool-cases s.logged_on) [
  | inl on ↦ rw on (same-Inv s (record s { logged_on = true }) refl refl refl v)
  | inr off ↦ rw off (
      queue-Inv (record s { logged_on = true }) _ none 0 0 0 false 0
        (same-Inv s (record s { logged_on = true }) refl refl refl v))
]

pub send_steam3_user_connect-Inv :
    (s : RuntimeState) (id : SteamId) → Inv s → Inv (send_steam3_user_connect s id).0
unfolding send_steam3_user_connect queue_client_approve queue_callback
send_steam3_user_connect-Inv s id v = queue-Inv s _ _ 16 0 0 false 0 v
