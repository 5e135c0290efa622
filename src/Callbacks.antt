-- ===== src/Callbacks.antt =====
-- Steam/steamclient_legacy/LegacySteamCallbacks.cpp: the bounded queue of callbacks, its payloads,
-- and the consumer's side: take the front with `Steam_BGetCallback`, then release it with
-- `Steam_FreeLastCallback`. A payload pointer is `none` when it is NULL, and otherwise the bytes
-- that it points at. The server is built for x86, where the payload of 205 is packed to 12 bytes.
pub mod Queue
use revive_emu.Base.{
  ℕ, zero, suc, ◌+◌, ◌-◌, ◌/◌, ◌%◌, Bool, true, false, not, ◌&&◌, ◌||◌, Option, none, some, List,
  [], ◌∷◌, ◌++◌, ◌==◌, ltb, leb, if◌then◌else◌,
}
use revive_emu.Base.Lists.{length, take}
use revive_emu.SteamId.{SteamId, convert_to_uint64}
use revive_emu.Runtime.{
  RuntimeState, QueuedCallback, the_user, the_pipe, callback_client_approve,
  callback_client_steam2_accept, max_queued_callbacks, max_callback_payload_bytes,
}
use revive_emu.Lifecycle.{apply_auth_callback}

-- The `n` bytes of a word, lowest first.
unfoldable pub le_bytes : ℕ → ℕ → List ℕ
le_bytes zero w = []
le_bytes (suc n) w = w % 256 ∷ le_bytes n (w / 256)

-- GSClientSteam2AcceptPayload
unfoldable pub accept_payload : ℕ → ℕ → List ℕ
unfolding le_bytes
accept_payload user_id steam_id = le_bytes 4 user_id ++ le_bytes 8 steam_id

-- GSClientApprovePayload
unfoldable pub approve_payload : SteamId → List ℕ
unfolding le_bytes
approve_payload steam_id =
    le_bytes 8 (convert_to_uint64 steam_id) ++ le_bytes 8 (convert_to_uint64 steam_id)

abbrev pub is_null : Option (List ℕ) → Bool
is_null none = true
is_null (some p) = false

-- `item.payload`
unfoldable pub copied_payload : Option (List ℕ) → ℕ → List ℕ
copied_payload none size = []
copied_payload (some p) size = take size p

-- The item that is pushed.
unfoldable pub queued_item : ℕ → Option (List ℕ) → ℕ → ℕ → ℕ → Bool → ℕ → QueuedCallback
unfolding copied_payload
queued_item callback payload size account steam_id auth_callback generation = record {
  user = the_user;
  callback = callback;
  payload = copied_payload payload size;
  account_id = account;
  steam_id = steam_id;
  auth_callback = auth_callback;
  generation = generation;
}

-- `QueueCallbackLocked`
unfoldable pub queue_callback_locked :
    RuntimeState → ℕ → Option (List ℕ) → ℕ → ℕ → ℕ → Bool → ℕ → RuntimeState × Bool
queue_callback_locked s callback payload size account steam_id auth_callback generation =
    if ltb max_callback_payload_bytes size || not (size == 0) && is_null payload
    then (s, false)
    else if leb max_queued_callbacks (length s.callbacks)
    then (s, false)
    else (
      record s {
        callbacks =
            s.callbacks
            ++ queued_item callback payload size account steam_id auth_callback generation ∷ [];
      },
      true,
    )

-- `QueueCallback`
unfoldable pub queue_callback : RuntimeState → ℕ → Option (List ℕ) → ℕ → RuntimeState × Bool
queue_callback s callback payload size = queue_callback_locked s callback payload size 0 0 false 0

-- `QueueClientApprove`
unfoldable pub queue_client_approve : RuntimeState → SteamId → RuntimeState × Bool
queue_client_approve s steam_id =
    queue_callback s callback_client_approve (some (approve_payload steam_id)) 16

-- `callbacks.pop_back()`
unfoldable pub pop_back {ℓ} : {A : Type ℓ} → List A → List A
pop_back [] = []
pop_back (x ∷ []) = []
pop_back (x ∷ y ∷ r) = x ∷ pop_back (y ∷ r)

-- The second half of the pair, with the rollback of the first.
unfoldable pub queue_approve_of_pair : RuntimeState → ℕ → SteamId → ℕ → RuntimeState × Bool
unfolding pop_back
queue_approve_of_pair s account steam_id generation =
    let (s', done) =
      queue_callback_locked s callback_client_approve (some (approve_payload steam_id)) 16 account
        (convert_to_uint64 steam_id) true generation in
    if not done then (record s' { callbacks = pop_back s'.callbacks }, false) else (s', true)

-- `QueueSteam2AuthCallbacksLocked`
unfoldable pub queue_steam2_auth_callbacks : RuntimeState → ℕ → SteamId → ℕ → RuntimeState × Bool
queue_steam2_auth_callbacks s account steam_id generation =
    if ltb (max_queued_callbacks - 2) (length s.callbacks)
    then (s, false)
    else (let (s', done) =
          queue_callback_locked s callback_client_steam2_accept
            (some (accept_payload account (convert_to_uint64 steam_id))) 12 account
            (convert_to_uint64 steam_id) true generation in
        if not done then (s', false) else queue_approve_of_pair s' account steam_id generation)

-- The callbacks that a removal of an account drops; generation 0 stands for any.
unfoldable pub is_pending_auth : ℕ → ℕ → QueuedCallback → Bool
is_pending_auth account generation c =
    c.auth_callback && c.account_id == account && (generation == 0 || c.generation == generation)

-- The loop from an iterator on: what is left, and the count of what was erased.
unfoldable pub erase_pending : ℕ → ℕ → List QueuedCallback → List QueuedCallback × ℕ
unfolding is_pending_auth
erase_pending account generation [] = ([], 0)
erase_pending account generation (c ∷ q) =
    let (rest, n) = erase_pending account generation q in
    if is_pending_auth account generation c then (rest, suc n) else (c ∷ rest, n)

-- The front is passed over while the consumer holds its payload.
unfoldable pub erase_behind_front : Bool → ℕ → ℕ → List QueuedCallback → List QueuedCallback × ℕ
erase_behind_front true account generation (c ∷ q) =
    let (rest, n) = erase_pending account generation q in (c ∷ rest, n)
erase_behind_front true account generation [] = erase_pending account generation []
erase_behind_front false account generation q = erase_pending account generation q

-- `RemovePendingAuthCallbacksLocked`
unfoldable pub remove_pending_auth_callbacks : RuntimeState → ℕ → ℕ → RuntimeState × ℕ
remove_pending_auth_callbacks s account generation =
    let (q, n) = erase_behind_front s.callback_in_flight account generation s.callbacks in
    (record s { callbacks = q }, n)

-- CallbackMsg_t
pub record CallbackMsg : Type 0 where
  pub steam_user : ℕ
  pub callback : ℕ
  pub param : Option (List ℕ)
  pub param_size : ℕ

-- What `*msg` is set to.
unfoldable pub message_of : QueuedCallback → CallbackMsg
message_of c = record {
  steam_user = c.user;
  callback = c.callback;
  param = elim c.payload [ [] ↦ none | b ∷ bs ↦ some (b ∷ bs) ];
  param_size = length c.payload;
}

-- The front is handed out, if there is one.
unfoldable pub hand_out : RuntimeState → List QueuedCallback → RuntimeState × Option CallbackMsg
hand_out s [] = (s, none)
hand_out s (c ∷ q) =
    (record s { current_callback_user = c.user; callback_in_flight = true }, some (message_of c))

-- `GetNextCallback` for a message that is not NULL, if `has_msg`; the answer is true with a message.
unfoldable pub get_next_callback : RuntimeState → ℕ → Bool → RuntimeState × Option CallbackMsg
get_next_callback s pipe has_msg =
    if not has_msg || not (pipe == the_pipe) || s.callback_in_flight
    then (s, none)
    else hand_out s s.callbacks

-- The front has its effect and leaves the queue.
unfoldable pub consume_front : RuntimeState → List QueuedCallback → RuntimeState
consume_front s [] = s
consume_front s (c ∷ q) = record (apply_auth_callback s c) { callbacks = q }

-- `FreeLastCallback`
unfoldable pub free_last_callback : RuntimeState → ℕ → RuntimeState
free_last_callback s pipe =
    let s' = if pipe == the_pipe && s.callback_in_flight then consume_front s s.callbacks else s in
    record s' { callback_in_flight = false }
