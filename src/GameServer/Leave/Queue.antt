-- ===== src/GameServer/Leave/Queue.antt =====
-- The queue after `GSRemoveUserConnect` and `GSSendUserDisconnect`.
use revive_emu.Base.{
  ℕ, ◌<◌, ◌≡◌, ◌≢◌, ◌⊎◌, inl, inr, refl, ap, ◌∙◌, Bool, true, false, not, ◌&&◌, none, some, ◌==◌,
  List, [], ◌∷◌, arith,
}
use revive_emu.Base.Lists.{keep}
use revive_emu.Base.Map.{find}
use revive_emu.SteamId.{SteamId, convert_to_uint64}
use revive_emu.Runtime.{RuntimeState, Session, QueuedCallback}
use revive_emu.Lifecycle.Steps.{erased}
use revive_emu.Sessions.Table.{IsStaged}
use revive_emu.Callbacks.{is_pending_auth, erase_pending, erase_behind_front}
use revive_emu.Callbacks.Queue.{with_callbacks}
use revive_emu.GameServer.{remove_user_connect, send_user_disconnect}
use revive_emu.GameServer.Leave.{remove_user_connect_cases, send_user_disconnect_cases}

-- A callback that the authentication of an account has queued, and one of a single generation.
abbrev pub is_of_account : ℕ → QueuedCallback → Bool
is_of_account account c = c.auth_callback && c.account_id == account

abbrev pub is_of_session : ℕ → ℕ → QueuedCallback → Bool
is_of_session account generation c = is_of_account account c && c.generation == generation

-- A queue without the callbacks of a kind; the front stays while the consumer holds it.
abbrev pub without : (QueuedCallback → Bool) → Bool → List QueuedCallback → List QueuedCallback
without gone true [] = []
without gone true (c ∷ q) = c ∷ keep (λ d. not (gone d)) q
without gone false q = keep (λ d. not (gone d)) q

-- The state with the queue that is left, and with the session gone as well.
abbrev pub freed : RuntimeState → (QueuedCallback → Bool) → RuntimeState
freed s gone = with_callbacks s (without gone s.callback_in_flight s.callbacks)

abbrev pub left : RuntimeState → ℕ → ℕ → RuntimeState
left s account generation = freed (erased s account) (is_of_session account generation)

erase_pending-account :
    (account : ℕ) (q : List QueuedCallback)
    → (erase_pending account 0 q).0 ≡ keep (λ d. not (is_of_account account d)) q
unfolding erase_pending is_pending_auth
erase_pending-account account [] = refl
erase_pending-account account (c ∷ q) = ground (arith, erase_pending-account account q)

erase_pending-session :
    (account generation : ℕ) (q : List QueuedCallback)
    → 0 < generation
    → (erase_pending account generation q).0
      ≡ keep (λ d. not (is_of_session account generation d)) q
unfolding erase_pending is_pending_auth
erase_pending-session account generation [] h = refl
erase_pending-session account generation (c ∷ q) h =
    ground (arith, erase_pending-session account generation q h)

erase_behind_front-account :
    (flight : Bool) (account : ℕ) (q : List QueuedCallback)
    → (erase_behind_front flight account 0 q).0 ≡ without (is_of_account account) flight q
unfolding erase_behind_front
erase_behind_front-account true account [] = erase_pending-account account []
erase_behind_front-account true account (c ∷ q) = ap (λ r. c ∷ r) (erase_pending-account account q)
erase_behind_front-account false account q = erase_pending-account account q

erase_behind_front-session :
    (flight : Bool) (account generation : ℕ) (q : List QueuedCallback)
    → 0 < generation
    → (erase_behind_front flight account generation q).0
      ≡ without (is_of_session account generation) flight q
unfolding erase_behind_front
erase_behind_front-session true account generation [] h =
    erase_pending-session account generation [] h
erase_behind_front-session true account generation (c ∷ q) h =
    ap (λ r. c ∷ r) (erase_pending-session account generation q h)
erase_behind_front-session false account generation q h =
    erase_pending-session account generation q h

left-erase :
    (s : RuntimeState) (account generation : ℕ)
    → 0 < generation
    → with_callbacks
        (erased s account)
        (erase_behind_front s.callback_in_flight account generation s.callbacks).0
      ≡ left s account generation
left-erase s account generation h =
    ap (with_callbacks (erased s account))
      (erase_behind_front-session s.callback_in_flight account generation s.callbacks h)

-- Removing an account whose session is staged under a generation that is not 0 drops that session,
-- and from the queue exactly the callbacks that the authentication of that account queued under
-- the session's generation. For an account with no session it drops from the queue exactly the
-- callbacks that the account's authentications queued, of every generation. In both cases a front
-- that the consumer holds stays, the other callbacks keep their order, and nothing else changes.
pub remove_user_connect_lem :
    (s : RuntimeState) (account : ℕ)
    → ((x : Session) → find account s.steam2_users ≡ some x → IsStaged x × (0 < x.generation))
    → ((find account s.steam2_users ≡ none)
        × (remove_user_connect s account ≡ freed s (is_of_account account)))
      ⊎ ((x : Session) × (find account s.steam2_users ≡ some x)
          × (remove_user_connect s account ≡ left s account x.generation))
remove_user_connect_lem s account t =
    elim (remove_user_connect_cases s account (λ x e. (t x e).0)) [
      | inl (absent, done) ↦ inl (
        absent,
        done
            ∙ ap (with_callbacks s)
                (erase_behind_front-account s.callback_in_flight account s.callbacks),
      )
      | inr (x, e, done) ↦ inr (x, e, done ∙ left-erase s account x.generation (t x e).1)
    ]

-- For an account whose session is staged under a generation that is not 0, a disconnect is
-- refused, with nothing changed, exactly if the account is bound to another id than the one given.
-- Otherwise the account has no session afterwards; if it had one, the queue has lost exactly the
-- callbacks that the authentication of that account queued under the session's generation, except
-- for a front that the consumer holds, and the others keep their order; and nothing else changes.
pub send_user_disconnect_lem :
    (s : RuntimeState) (id : SteamId) (account : ℕ)
    → ((x : Session) → find account s.steam2_users ≡ some x → IsStaged x × (0 < x.generation))
    → ((find account s.steam2_users ≡ none) × (send_user_disconnect s id account ≡ (s, true)))
      ⊎ ((x : Session) × (find account s.steam2_users ≡ some x)
          × (x.identity_bound ≡ true)
          × (convert_to_uint64 x.steam_id ≢ convert_to_uint64 id)
          × (send_user_disconnect s id account ≡ (s, false)))
      ⊎ ((x : Session) × (find account s.steam2_users ≡ some x)
          × ((x.identity_bound ≡ false) ⊎ (convert_to_uint64 x.steam_id ≡ convert_to_uint64 id))
          × (send_user_disconnect s id account ≡ (left s account x.generation, true)))
send_user_disconnect_lem s id account t =
    elim (send_user_disconnect_cases s id account (λ x e. (t x e).0)) [
      | inl absent ↦ inl absent
      | inr (inl refused) ↦ inr (inl refused)
      | inr (inr (x, e, why, done)) ↦ inr (
          inr (x, e, why, done ∙ ap (λ u. (u, true)) (left-erase s account x.generation (t x e).1)))
    ]
