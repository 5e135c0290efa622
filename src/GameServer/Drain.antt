-- ===== src/GameServer/Drain.antt =====
-- The consumer's loop, which takes a callback and releases it until the queue is empty, and what it
-- does to the sessions.
use revive_emu.Base.{
  ℕ, zero, suc, ◌≡◌, inl, inr, refl, sym, ◌∙◌, ap, subst, Bool, true, false, not, ◌||◌, Option,
  none, some, List, [], ◌∷◌, ◌==◌, if◌then◌else◌, Bool-cases, Option-cases, arith,
}
use revive_emu.Base.Lists.{length}
use revive_emu.Base.Map.{find, find-update}
use revive_emu.Runtime.{
  RuntimeState, Session, QueuedCallback, Lifecycle, new, active, authenticated, the_pipe,
  callback_client_approve, callback_client_steam2_accept,
}
use revive_emu.Lifecycle.{transition, apply_auth_callback}
use revive_emu.Lifecycle.Steps.{moved, transition_cases, transition_absent}
use revive_emu.Callbacks.{get_next_callback, hand_out, consume_front, free_last_callback}
use revive_emu.GameServer.Invariant.Base.{Inv, IsAnnounced}
use revive_emu.GameServer.History.{Reach, Reach-Inv}
use revive_emu.GameServer.Invariant.Delivery.{get_next_callback-Inv, free_last_callback-Inv}

-- `Steam_BGetCallback`, then `Steam_FreeLastCallback`.
unfoldable pub deliver : RuntimeState → RuntimeState
deliver s = free_last_callback (get_next_callback s the_pipe true).0 the_pipe

unfoldable pub deliver_all : ℕ → RuntimeState → RuntimeState
deliver_all zero s = s
deliver_all (suc n) s = deliver_all n (deliver s)

-- An entry of the session table with another lifecycle state.
abbrev staged_as : Lifecycle → Option Session → Option Session
staged_as l none = none
staged_as l (some x) = some (record x { lifecycle = l })

abbrev state_of : Option Session → Lifecycle
state_of none = new
state_of (some x) = x.lifecycle

staged_as-state_of : (o : Option Session) → staged_as (state_of o) o ≡ o
staged_as-state_of none = refl
staged_as-state_of (some x) = refl

staged_as_twice :
    (l m : Lifecycle) (o : Option Session) → staged_as l (staged_as m o) ≡ staged_as l o
staged_as_twice l m none = refl
staged_as_twice l m (some x) = refl

-- The entry of an account is as it was, changed in its lifecycle state at most.
abbrev Keeps : ℕ → Option Session → RuntimeState → Type 0
Keeps k o s = (l : Lifecycle) × (find k s.steam2_users ≡ staged_as l o)

same-Keeps :
    (k : ℕ) (o : Option Session) (s : RuntimeState) → find k s.steam2_users ≡ o → Keeps k o s
same-Keeps k o s e = (state_of o, e ∙ sym (staged_as-state_of o))

moved-Keeps :
    (s : RuntimeState) (account k : ℕ) (next : Lifecycle) (y : Session) (o : Option Session)
    → find account s.steam2_users ≡ some y
    → find k s.steam2_users ≡ o
    → Keeps k o (moved s account y next)
moved-Keeps s account k next y o f e =
    let found = find-update k account (record y { lifecycle = next }) y s.steam2_users f in
    elim (Bool-cases (k == account)) [
      | inr there ↦ (state_of o, ground (arith, found) ∙ e ∙ sym (staged_as-state_of o))
      | inl here ↦
          let there : find k s.steam2_users ≡ some y = ground arith in
          (next, ground (arith, found) ∙ ap (staged_as next) (sym there ∙ e))
    ]

transition-Keeps :
    (s : RuntimeState) (account generation k : ℕ) (next : Lifecycle) (o : Option Session)
    → find k s.steam2_users ≡ o
    → Keeps k o (transition s account generation next).0
transition-Keeps s account generation k next o e =
    elim (Option-cases (find account s.steam2_users)) [
      | inl absent ↦ rw (transition_absent s account generation next absent) (same-Keeps k o s e)
      | inr (y, f) ↦ elim (transition_cases s account generation next y f) [
        | inl (same, _) ↦ rw same (same-Keeps k o s e)
        | inr (inl (same, _, _)) ↦ rw same (same-Keeps k o s e)
        | inr (inr (done, _, _)) ↦ rw done (moved-Keeps s account k next y o f e)
      ]
    ]

apply-Keeps :
    (s : RuntimeState) (c : QueuedCallback) (k : ℕ) (o : Option Session)
    → find k s.steam2_users ≡ o
    → Keeps k o (apply_auth_callback s c)
unfolding apply_auth_callback
apply-Keeps s c k o e = elim (Bool-cases (not c.auth_callback || c.generation == 0)) [
  | inl idle ↦ rw idle (same-Keeps k o s e)
  | inr mine ↦ elim (Bool-cases (c.callback == callback_client_steam2_accept)) [
    | inl accept ↦
        rw (mine, accept) (transition-Keeps s c.account_id c.generation k authenticated o e)
    | inr other ↦ elim (Bool-cases (c.callback == callback_client_approve)) [
      | inl approve ↦
          rw (mine, other, approve) (transition-Keeps s c.account_id c.generation k active o e)
      | inr none_of ↦ rw (mine, other, none_of) (same-Keeps k o s e)
    ]
  ]
]

-- After the take, the front is held, whether or not it had been taken before.
taken :
    (s : RuntimeState) (c : QueuedCallback) (q : List QueuedCallback)
    → s.callbacks ≡ c ∷ q
    → let t = (get_next_callback s the_pipe true).0 in
      (t.callbacks ≡ c ∷ q) × (t.callback_in_flight ≡ true) × (t.steam2_users ≡ s.steam2_users)
unfolding get_next_callback hand_out
taken s c q e = ground arith

freed :
    (t : RuntimeState) (c : QueuedCallback) (q : List QueuedCallback)
    → t.callbacks ≡ c ∷ q
    → t.callback_in_flight ≡ true
    → ((free_last_callback t the_pipe).callbacks ≡ q)
      × ((free_last_callback t the_pipe).steam2_users ≡ (apply_auth_callback t c).steam2_users)
unfolding free_last_callback consume_front
freed t c q e h = ground arith

deliver_callbacks :
    (s : RuntimeState) (c : QueuedCallback) (q : List QueuedCallback)
    → s.callbacks ≡ c ∷ q
    → (deliver s).callbacks ≡ q
unfolding deliver
deliver_callbacks s c q e =
    let (f, h, u) = taken s c q e in (freed (get_next_callback s the_pipe true).0 c q f h).0

deliver-Keeps :
    (s : RuntimeState) (c : QueuedCallback) (q : List QueuedCallback) (k : ℕ) (o : Option Session)
    → s.callbacks ≡ c ∷ q
    → find k s.steam2_users ≡ o
    → Keeps k o (deliver s)
unfolding deliver
deliver-Keeps s c q k o e at_k =
    let t = (get_next_callback s the_pipe true).0 in
    let (f, h, u) = taken s c q e in
    let (l, found) = apply-Keeps t c k o (ap (find k) u ∙ at_k) in
    (l, ap (find k) (freed t c q f h).1 ∙ found)

deliver-Inv : (s : RuntimeState) → Inv s → Inv (deliver s)
unfolding deliver
deliver-Inv s v = free_last_callback-Inv _ the_pipe (get_next_callback-Inv s the_pipe true v)

drained :
    (q : List QueuedCallback) (s : RuntimeState) (k : ℕ) (o : Option Session)
    → s.callbacks ≡ q
    → find k s.steam2_users ≡ o
    → Inv s
    → Keeps k o (deliver_all (length q) s)
      × ((deliver_all (length q) s).callbacks ≡ [])
      × Inv (deliver_all (length q) s)
unfolding deliver_all
drained [] s k o e at_k v = (same-Keeps k o s at_k, e, v)
drained (c ∷ q) s k o e at_k v =
    let (l, found) = deliver-Keeps s c q k o e at_k in
    let ((m, there), empty, w) =
      drained q (deliver s) k (staged_as l o) (deliver_callbacks s c q e) found (deliver-Inv s v) in
    ((m, there ∙ staged_as_twice m l o), empty, w)

-- A session that was bound is ACTIVE, and all else of the entry is as it was.
abbrev pub settled : Option Session → Option Session
settled none = none
settled (some x) = some (if x.identity_bound then record x { lifecycle = active } else x)

-- A session's lifecycle state once the queue is empty.
bound-active :
    (s : RuntimeState) (k : ℕ) (x : Session)
    → find k s.steam2_users ≡ some x
    → s.callbacks ≡ []
    → Inv s
    → x.identity_bound ≡ true
    → x.lifecycle ≡ active
bound-active s k x found empty v bound =
    let waits = subst (IsAnnounced k x) empty (v.announced k x found) in
    ground (arith, v.table.staged k x found, waits.0, waits.1)

free-new :
    (s : RuntimeState) (k : ℕ) (x : Session)
    → find k s.steam2_users ≡ some x
    → Inv s
    → x.identity_bound ≡ false
    → x.lifecycle ≡ new
free-new s k x found v free = ground (arith, v.table.staged k x found)

settle :
    (s t : RuntimeState) (k : ℕ) (o : Option Session)
    → Inv s
    → Inv t
    → t.callbacks ≡ []
    → find k s.steam2_users ≡ o
    → Keeps k o t
    → find k t.steam2_users ≡ settled o
settle s t k none v w empty at_k (l, found) = found
settle s t k (some x) v w empty at_k (l, found) =
    let y : Session = record x { lifecycle = l } in
    let settles = λ (b : Bool). some (if b then record x { lifecycle = active } else x) in
    elim (Bool-cases x.identity_bound) [
      | inl bound ↦
          found
          ∙ ap (λ m. some (record x { lifecycle = m })) (bound-active t k y found empty w bound)
          ∙ ap settles (sym bound)
      | inr free ↦
          found
          ∙ ap (λ m. some (record x { lifecycle = m }))
              (free-new t k y found w free ∙ sym (free-new s k x at_k v free))
          ∙ ap settles (sym free)
    ]

-- From any state that some interleaving of the calls reaches, fewer than 2 ^ 64 - 1 reservations
-- into the run, as many deliveries as callbacks are queued empty the queue, whatever sessions
-- there are. Of the session table every account then has what it had: no session, a bare
-- reservation as it was, or its bound session, which is ACTIVE now, with all else of it as it was.
pub deliver_all_active :
    (s : RuntimeState) (k : ℕ)
    → Reach s
    → let t = deliver_all (length s.callbacks) s in
      (t.callbacks ≡ []) × (find k t.steam2_users ≡ settled (find k s.steam2_users))
deliver_all_active s k r =
    let v = Reach-Inv r in
    let (keeps, empty, w) = drained s.callbacks s k (find k s.steam2_users) refl refl v in
    (empty, settle s _ k _ v w empty refl keeps)
