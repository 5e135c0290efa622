-- ===== src/GameServer/Invariant/Base.antt =====
-- The invariant of the runtime state, and the writes that keep it.
use revive_emu.Base.{ℕ, ◌+◌, ◌≤◌, ◌≡◌, ◌≢◌, ◌∙◌, ap, true, none, some, List, ◌++◌, arith}
use revive_emu.Base.Lists.{length, length-append}
use revive_emu.Base.Map.{find, find-erase-some}
use revive_emu.Runtime.{
  RuntimeState, Session, QueuedCallback, auth_pending, authenticated, initial_state,
  max_queued_callbacks,
}
use revive_emu.Lifecycle.Steps.{erased}
use revive_emu.Sessions.Table.{IsTable, empty-IsTable, erase-IsTable}
use revive_emu.Callbacks.{erase_behind_front}
use revive_emu.Callbacks.Queue.{
  has_approve, has_pair, with_callbacks, has_approve-append, has_pair-append,
  has_approve-erase_behind, has_pair-erase_behind, length-erase_behind-le,
}

-- The callbacks that will take a session on to ACTIVE are still queued.
abbrev pub IsAnnounced : ℕ → Session → List QueuedCallback → Type 0
IsAnnounced k x q =
    (x.lifecycle ≡ auth_pending → has_pair k x.generation q ≡ true)
    × (x.lifecycle ≡ authenticated → has_approve k x.generation q ≡ true)

pub record Inv (s : RuntimeState) : Type 0 where
  pub table : IsTable s.steam2_users s.next_client_generation
  pub queue_room : length s.callbacks ≤ max_queued_callbacks
  pub announced :
      (k : ℕ) (x : Session) → find k s.steam2_users ≡ some x → IsAnnounced k x s.callbacks

pub initial-Inv : Inv initial_state
unfolding find
initial-Inv = record { table = empty-IsTable; queue_room = omega arith; announced = λ k x e. cc }

-- Taking a session out.
pub erased-Inv : (s : RuntimeState) (account : ℕ) → Inv s → Inv (erased s account)
erased-Inv s account v = record {
  table = erase-IsTable s.steam2_users s.next_client_generation v.table account;
  queue_room = v.queue_room;
  announced = λ k x e. v.announced k x (find-erase-some k account s.steam2_users e).1;
}

-- More callbacks at the end of the queue.
pub append-Inv :
    (s : RuntimeState) (r : List QueuedCallback)
    → length s.callbacks + length r ≤ max_queued_callbacks
    → Inv s
    → Inv (with_callbacks s (s.callbacks ++ r))
append-Inv s r room v = record {
  table = v.table;
  queue_room = omega (arith, length-append s.callbacks r);
  announced = λ k x e. (
    λ p. has_pair-append k x.generation s.callbacks r ((v.announced k x e).0 p),
    λ p. has_approve-append k x.generation s.callbacks r ((v.announced k x e).1 p),
  );
}

-- Dropping the pending callbacks of an account that has no session.
pub pending-Inv :
    (s : RuntimeState) (account generation : ℕ)
    → find account s.steam2_users ≡ none
    → Inv s
    → Inv (
        with_callbacks s (erase_behind_front s.callback_in_flight account generation s.callbacks).0)
pending-Inv s account generation gone v = record {
  table = v.table;
  queue_room = omega (
    arith,
    length-erase_behind-le s.callback_in_flight account generation s.callbacks,
    v.queue_room,
  );
  announced = λ k x e.
      let other : k ≢ account = λ same. cc (ap (λ (j : ℕ). find j s.steam2_users) same) in
      (
        λ p.
            has_pair-erase_behind s.callback_in_flight k x.generation account generation s.callbacks
              other
            ∙ (v.announced k x e).0 p,
        λ p.
            has_approve-erase_behind s.callback_in_flight k x.generation account generation
              s.callbacks other
            ∙ (v.announced k x e).1 p,
      );
}
