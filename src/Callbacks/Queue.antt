-- ===== src/Callbacks/Queue.antt =====
-- The callback queue: what is appended, what is dropped, and whether the 205 and 201 of a session
-- are still to come.
use revive_emu.Base.{
  ℕ, ◌+◌, ◌≤◌, ◌<◌, ◌≡◌, ◌≢◌, ◌⊎◌, inl, inr, refl, Bool, true, false, not, ◌&&◌, ◌||◌, Option, some,
  List, [], ◌∷◌, ◌++◌, ◌==◌, ltb, leb, Bool-cases, if◌then◌else◌, arith,
}
use mathlib.Core.List.{append_assoc}
use revive_emu.Base.Lists.{length, keep, length-append}
use revive_emu.SteamId.{SteamId, convert_to_uint64}
use revive_emu.Runtime.{
  RuntimeState, QueuedCallback, callback_client_approve, callback_client_steam2_accept,
  max_queued_callbacks, max_callback_payload_bytes,
}
use revive_emu.Callbacks.{
  is_null, accept_payload, approve_payload, queued_item, queue_callback_locked,
  queue_approve_of_pair, queue_steam2_auth_callbacks, is_pending_auth, erase_pending,
  erase_behind_front,
}

-- The two callbacks of an accepted authentication.
abbrev pub accept_callback : ℕ → SteamId → ℕ → QueuedCallback
accept_callback account id generation =
    queued_item callback_client_steam2_accept (some (accept_payload account (convert_to_uint64 id)))
      12 account (convert_to_uint64 id) true generation

abbrev pub approve_callback : ℕ → SteamId → ℕ → QueuedCallback
approve_callback account id generation =
    queued_item callback_client_approve (some (approve_payload id)) 16 account
      (convert_to_uint64 id) true generation

abbrev pub with_callbacks : RuntimeState → List QueuedCallback → RuntimeState
with_callbacks s q = record s { callbacks = q }

-- A single callback goes to the end of the queue, or it changes nothing: on a payload that is too
-- large or missing, or on a full queue.
pub queue_callback_cases :
    (s : RuntimeState) (callback : ℕ) (payload : Option (List ℕ)) (size account id : ℕ)
    (auth : Bool) (generation : ℕ)
    → (queue_callback_locked s callback payload size account id auth generation ≡ (s, false))
      ⊎ ((length s.callbacks < max_queued_callbacks)
          × (queue_callback_locked s callback payload size account id auth generation ≡ (
            with_callbacks s
                (s.callbacks ++ queued_item callback payload size account id auth generation ∷ []),
            true,
          )))
unfolding queue_callback_locked
queue_callback_cases s callback payload size account id auth generation =
    elim (Bool-cases (ltb max_callback_payload_bytes size || not (size == 0) && is_null payload)) [
      | inl bad ↦ inl (ground arith)
      | inr fine ↦ elim (Bool-cases (leb max_queued_callbacks (length s.callbacks))) [
        | inl full ↦ inl (ground arith)
        | inr room ↦ inr (ground arith, ground arith)
      ]
    ]

queue_ok :
    (s : RuntimeState) (callback : ℕ) (p : List ℕ) (size account id : ℕ) (generation : ℕ)
    → size ≤ 4096
    → length s.callbacks < max_queued_callbacks
    → queue_callback_locked s callback (some p) size account id true generation ≡ (
      with_callbacks s
          (s.callbacks ++ queued_item callback (some p) size account id true generation ∷ []),
      true,
    )
unfolding queue_callback_locked
queue_ok s callback p size account id generation small room = ground arith

-- The pair is atomic: with two places free both callbacks go to the end, 205 before 201; otherwise
-- the state stays as it was and the answer is false.
pub queue_steam2_auth_callbacks_atomic :
    (s : RuntimeState) (account : ℕ) (id : SteamId) (generation : ℕ)
    → queue_steam2_auth_callbacks s account id generation ≡ (
        if leb (length s.callbacks + 2) max_queued_callbacks
        then (
          with_callbacks s (
              s.callbacks
              ++ accept_callback account id generation
                ∷ approve_callback account id generation
                ∷ []),
          true,
        )
        else (s, false))
unfolding queue_steam2_auth_callbacks queue_approve_of_pair
queue_steam2_auth_callbacks_atomic s account id generation =
    let first = accept_callback account id generation in
    let second = approve_callback account id generation in
    elim (Bool-cases (leb (length s.callbacks + 2) max_queued_callbacks)) [
      | inr full ↦ rw full (ground arith)
      | inl room ↦ rw room (
          ground (
            arith,
            queue_ok s callback_client_steam2_accept (accept_payload account (convert_to_uint64 id))
                12 account (convert_to_uint64 id) generation,
            queue_ok (with_callbacks s (s.callbacks ++ first ∷ [])) callback_client_approve
                (approve_payload id) 16 account (convert_to_uint64 id) generation,
            length-append s.callbacks (first ∷ []),
            append_assoc s.callbacks (first ∷ []) (second ∷ []),
          ))
    ]

-- What is erased is exactly the pending callbacks of the account and generation; the others keep
-- their order, and the count is that of the erased ones.
pub erase_pending_lem :
    (account generation : ℕ) (q : List QueuedCallback)
    → ((erase_pending account generation q).0
        ≡ keep (λ c. not (is_pending_auth account generation c)) q)
      × (length (erase_pending account generation q).0 + (erase_pending account generation q).1
          ≡ length q)
unfolding erase_pending
erase_pending_lem account generation [] = (refl, refl)
erase_pending_lem account generation (c ∷ q) =
    ground (arith, erase_pending_lem account generation q)

-- A callback for an account and generation.
abbrev pub is_for : ℕ → ℕ → ℕ → QueuedCallback → Bool
is_for account generation callback c =
    c.auth_callback
    && (c.account_id == account && (c.generation == generation && c.callback == callback))

-- A 201 for the session is still queued.
abbrev pub has_approve : ℕ → ℕ → List QueuedCallback → Bool
has_approve account generation [] = false
has_approve account generation (c ∷ q) =
    is_for account generation callback_client_approve c || has_approve account generation q

-- A 205 for the session is still queued, with a 201 behind it.
abbrev pub has_pair : ℕ → ℕ → List QueuedCallback → Bool
has_pair account generation [] = false
has_pair account generation (c ∷ q) =
    (is_for account generation callback_client_steam2_accept c && has_approve account generation q)
    || has_pair account generation q

pub has_approve-append :
    (a g : ℕ) (q r : List QueuedCallback)
    → has_approve a g q ≡ true
    → has_approve a g (q ++ r) ≡ true
has_approve-append a g [] r h = cc
has_approve-append a g (c ∷ q) r h = ground (arith, has_approve-append a g q r)

pub has_pair-append :
    (a g : ℕ) (q r : List QueuedCallback) → has_pair a g q ≡ true → has_pair a g (q ++ r) ≡ true
has_pair-append a g [] r h = cc
has_pair-append a g (c ∷ q) r h =
    ground (arith, has_pair-append a g q r, has_approve-append a g q r)

pub has_pair-append_new :
    (a g : ℕ) (id : SteamId) (q : List QueuedCallback)
    → has_pair a g (q ++ accept_callback a id g ∷ approve_callback a id g ∷ []) ≡ true
unfolding queued_item
has_pair-append_new a g id [] = ground arith
has_pair-append_new a g id (c ∷ q) = ground (arith, has_pair-append_new a g id q)

-- Erasing the callbacks of one account leaves those of another.
has_approve-erase :
    (a g b h : ℕ) (q : List QueuedCallback)
    → a ≢ b
    → has_approve a g (erase_pending b h q).0 ≡ has_approve a g q
unfolding erase_pending
has_approve-erase a g b h [] d = refl
has_approve-erase a g b h (c ∷ q) d = ground (arith, has_approve-erase a g b h q d)

has_pair-erase :
    (a g b h : ℕ) (q : List QueuedCallback)
    → a ≢ b
    → has_pair a g (erase_pending b h q).0 ≡ has_pair a g q
unfolding erase_pending
has_pair-erase a g b h [] d = refl
has_pair-erase a g b h (c ∷ q) d =
    ground (arith, has_pair-erase a g b h q d, has_approve-erase a g b h q d)

pub has_approve-erase_behind :
    (flight : Bool) (a g b h : ℕ) (q : List QueuedCallback)
    → a ≢ b
    → has_approve a g (erase_behind_front flight b h q).0 ≡ has_approve a g q
unfolding erase_behind_front
has_approve-erase_behind true a g b h [] d = has_approve-erase a g b h [] d
has_approve-erase_behind true a g b h (c ∷ q) d = ground (arith, has_approve-erase a g b h q d)
has_approve-erase_behind false a g b h q d = has_approve-erase a g b h q d

pub has_pair-erase_behind :
    (flight : Bool) (a g b h : ℕ) (q : List QueuedCallback)
    → a ≢ b
    → has_pair a g (erase_behind_front flight b h q).0 ≡ has_pair a g q
unfolding erase_behind_front
has_pair-erase_behind true a g b h [] d = has_pair-erase a g b h [] d
has_pair-erase_behind true a g b h (c ∷ q) d =
    ground (arith, has_pair-erase a g b h q d, has_approve-erase a g b h q d)
has_pair-erase_behind false a g b h q d = has_pair-erase a g b h q d

pub length-erase_behind-le :
    (flight : Bool) (a g : ℕ) (q : List QueuedCallback)
    → length (erase_behind_front flight a g q).0 ≤ length q
unfolding erase_behind_front
length-erase_behind-le true a g [] = omega (arith, (erase_pending_lem a g []).1)
length-erase_behind-le true a g (c ∷ q) = omega (arith, (erase_pending_lem a g q).1)
length-erase_behind-le false a g q = omega (arith, (erase_pending_lem a g q).1)
