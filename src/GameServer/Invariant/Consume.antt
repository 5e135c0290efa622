-- ===== src/GameServer/Invariant/Consume.antt =====
-- The invariant where a callback is queued and where the front one is consumed.
use revive_emu.Base.{
  ℕ, ◌≡◌, ◌⊎◌, inl, inr, refl, ap, subst, Bool, true, false, not, ◌||◌, Option, some, List, [], ◌∷◌,
  ◌==◌, Bool-cases, Option-cases, arith,
}
use revive_emu.Base.Lists.{length}
use revive_emu.Base.Map.{find, find-update-some}
use revive_emu.Runtime.{
  RuntimeState, Session, QueuedCallback, Lifecycle, auth_pending, authenticated, active,
  callback_client_steam2_accept, callback_client_approve,
}
use revive_emu.Lifecycle.{is_allowed_transition, transition, apply_auth_callback}
use revive_emu.Lifecycle.Steps.{moved, transition_cases, transition_absent, transition_allowed}
use revive_emu.Sessions.Table.{move-IsTable}
use revive_emu.Callbacks.{queue_callback_locked, consume_front, queued_item}
use revive_emu.Callbacks.Queue.{has_pair, has_approve, is_for, with_callbacks, queue_callback_cases}
use revive_emu.GameServer.Invariant.Base.{IsAnnounced, Inv, append-Inv}

-- Queuing one callback keeps the invariant.
pub queue-Inv :
    (s : RuntimeState) (callback : ℕ) (payload : Option (List ℕ)) (size account id : ℕ)
    (auth : Bool) (generation : ℕ)
    → Inv s
    → Inv (queue_callback_locked s callback payload size account id auth generation).0
queue-Inv s callback payload size account id auth generation v =
    elim (queue_callback_cases s callback payload size account id auth generation) [
      | inl same ↦ rw same v
      | inr (room, done) ↦ rw done (
          append-Inv s (queued_item callback payload size account id auth generation ∷ [])
            (omega arith) v)
    ]

-- The consumption of the front, on the session that it is for: a session that waited for it moves
-- on, and any other is left where it was.
popped-Inv :
    (s : RuntimeState) (c : QueuedCallback) (q : List QueuedCallback)
    → s.callbacks ≡ c ∷ q
    → ((k : ℕ) (x : Session) → find k s.steam2_users ≡ some x → IsAnnounced k x q)
    → Inv s
    → Inv (with_callbacks s q)
popped-Inv s c q e left v = record {
  table = v.table;
  queue_room = omega (arith, ap length e, v.queue_room);
  announced = left;
}

-- A session for which the front is not the awaited callback still has its own behind it.
IsAnnounced-tail :
    (k : ℕ) (x : Session) (c : QueuedCallback) (q : List QueuedCallback)
    → IsAnnounced k x (c ∷ q)
    → (x.lifecycle ≡ auth_pending → is_for k x.generation callback_client_steam2_accept c ≡ false)
    → (x.lifecycle ≡ authenticated → is_for k x.generation callback_client_approve c ≡ false)
    → IsAnnounced k x q
IsAnnounced-tail k x c q a p r = (λ l. ground (arith, a.0 l, p l), λ l. ground (arith, a.1 l, r l))

has_pair-has_approve :
    (a g : ℕ) (q : List QueuedCallback) → has_pair a g q ≡ true → has_approve a g q ≡ true
has_pair-has_approve a g [] h = cc
has_pair-has_approve a g (c ∷ q) h = ground (arith, has_pair-has_approve a g q)

-- The front is for no session: it is no callback of an authentication, or of no generation or kind
-- that moves one.
idle-tail :
    (s : RuntimeState) (c : QueuedCallback) (q : List QueuedCallback)
    → s.callbacks ≡ c ∷ q
    → ((k : ℕ) (x : Session)
        → find k s.steam2_users ≡ some x
        → (x.lifecycle ≡ auth_pending
            → is_for k x.generation callback_client_steam2_accept c ≡ false)
          × (x.lifecycle ≡ authenticated → is_for k x.generation callback_client_approve c ≡ false))
    → Inv s
    → Inv (with_callbacks s q)
idle-tail s c q e idle v =
    popped-Inv s c q e
      (λ k x f.
        IsAnnounced-tail k x c q (subst (IsAnnounced k x) e (v.announced k x f)) (idle k x f).0
          (idle k x f).1)
      v

-- The front moves the session of account `a` to the state `l`.
moved-tail :
    (s : RuntimeState) (c : QueuedCallback) (q : List QueuedCallback) (y : Session) (l : Lifecycle)
    → s.callbacks ≡ c ∷ q
    → find c.account_id s.steam2_users ≡ some y
    → y.identity_bound ≡ true
    → ((l ≡ authenticated) × (has_approve c.account_id y.generation q ≡ true)) ⊎ (l ≡ active)
    → Inv s
    → Inv (with_callbacks (moved s c.account_id y l) q)
moved-tail s c q y l e at_account bound target v = record {
  table =
      move-IsTable s.steam2_users s.next_client_generation v.table c.account_id y l at_account bound
        (ground arith);
  queue_room = omega (arith, ap length e, v.queue_room);
  announced = λ k x f.
      elim (find-update-some k c.account_id (record y { lifecycle = l }) y s.steam2_users at_account
        f) [
          | inl (at, is) ↦ (λ p. ground arith, λ p. ground arith)
          | inr (off, old) ↦
              IsAnnounced-tail k x c q (subst (IsAnnounced k x) e (v.announced k x old))
                (λ p. ground arith) (λ p. ground arith)
        ];
}

-- The callback 205 of a session takes it from AUTH_PENDING to AUTHENTICATED.
consume-accept :
    (s : RuntimeState) (c : QueuedCallback) (q : List QueuedCallback)
    → s.callbacks ≡ c ∷ q
    → c.callback ≡ callback_client_steam2_accept
    → Inv s
    → Inv (with_callbacks (transition s c.account_id c.generation authenticated).0 q)
unfolding is_allowed_transition
consume-accept s c q e kind v = elim (Option-cases (find c.account_id s.steam2_users)) [
  | inl absent ↦
      rw (transition_absent s c.account_id c.generation authenticated absent)
        (idle-tail s c q e (λ k x f. (λ l. ground arith, λ l. ground arith)) v)
  | inr (y, at_account) ↦
      elim (transition_cases s c.account_id c.generation authenticated y at_account) [
        | inl (same, _) ↦ rw same (
            idle-tail s c q e
              (λ k x f. (
                λ l. ground (arith, transition_allowed s c.account_id authenticated y at_account),
                λ l. ground arith,
              ))
              v)
        | inr (inl (same, own, there)) ↦
            rw same (idle-tail s c q e (λ k x f. (λ l. ground arith, λ l. ground arith)) v)
        | inr (inr (done, own, allowed)) ↦
            let waiting : y.lifecycle ≡ auth_pending = ground arith in
            let pair =
              subst (IsAnnounced c.account_id y) e (v.announced c.account_id y at_account) in
            rw done (
              moved-tail s c q y authenticated e at_account
                (ground (arith, v.table.staged c.account_id y at_account))
                (inl (
                  refl,
                  ground (arith, pair.0 waiting, has_pair-has_approve c.account_id y.generation q),
                ))
                v)
      ]
]

-- The callback 201 of a session takes it from AUTHENTICATED to ACTIVE.
consume-approve :
    (s : RuntimeState) (c : QueuedCallback) (q : List QueuedCallback)
    → s.callbacks ≡ c ∷ q
    → c.callback ≡ callback_client_approve
    → Inv s
    → Inv (with_callbacks (transition s c.account_id c.generation active).0 q)
unfolding is_allowed_transition
consume-approve s c q e kind v = elim (Option-cases (find c.account_id s.steam2_users)) [
  | inl absent ↦
      rw (transition_absent s c.account_id c.generation active absent)
        (idle-tail s c q e (λ k x f. (λ l. ground arith, λ l. ground arith)) v)
  | inr (y, at_account) ↦ elim (transition_cases s c.account_id c.generation active y at_account) [
    | inl (same, _) ↦ rw same (
        idle-tail s c q e
          (λ k x f. (
            λ l. ground arith,
            λ l. ground (arith, transition_allowed s c.account_id active y at_account),
          ))
          v)
    | inr (inl (same, own, there)) ↦
        rw same (idle-tail s c q e (λ k x f. (λ l. ground arith, λ l. ground arith)) v)
    | inr (inr (done, own, allowed)) ↦ rw done (
        moved-tail s c q y active e at_account
          (ground (arith, v.table.staged c.account_id y at_account)) (inr refl) v)
  ]
]

consume-other :
    (s : RuntimeState) (c : QueuedCallback) (q : List QueuedCallback)
    → s.callbacks ≡ c ∷ q
    → (not c.auth_callback
        || c.generation == 0
        || not
            (c.callback == callback_client_steam2_accept || c.callback == callback_client_approve))
      ≡ true
    → Inv s
    → Inv (with_callbacks s q)
consume-other s c q e other v =
    idle-tail s c q e
      (λ k x f.
        (λ l. ground (arith, v.table.current k x f), λ l. ground (arith, v.table.current k x f)))
      v

-- Consuming the front keeps the invariant.
pub consume_front-Inv :
    (s : RuntimeState) (q : List QueuedCallback) → s.callbacks ≡ q → Inv s → Inv (consume_front s q)
unfolding consume_front apply_auth_callback
consume_front-Inv s [] e v = v
consume_front-Inv s (c ∷ q) e v = elim (Bool-cases (not c.auth_callback || c.generation == 0)) [
  | inl idle ↦ rw idle (consume-other s c q e (ground arith) v)
  | inr mine ↦ elim (Bool-cases (c.callback == callback_client_steam2_accept)) [
    | inl accept ↦ rw (mine, accept) (consume-accept s c q e (ground arith) v)
    | inr other ↦ elim (Bool-cases (c.callback == callback_client_approve)) [
      | inl approve ↦ rw (mine, other, approve) (consume-approve s c q e (ground arith) v)
      | inr none_of ↦ rw (mine, other, none_of) (consume-other s c q e (ground arith) v)
    ]
  ]
]
