-- ===== src/Lifecycle/Diagram.antt =====
-- The diagram of a session's lifecycle states, and the transitions along it.
use revive_emu.Base.{
  ℕ, zero, suc, ◌≡◌, ◌≢◌, ◌⊎◌, inl, inr, refl, sym, ap, ◌∙◌, subst, true, false, ◌||◌, some,
  Bool-cases, arith,
}
use revive_emu.Base.Map.{find}
use revive_emu.Runtime.{
  RuntimeState, Session, Lifecycle, new, auth_pending, authenticated, active, disconnecting,
  removed,
}
use revive_emu.Lifecycle.{lifecycle_value, same_lifecycle, is_allowed_transition, transition}
use revive_emu.Lifecycle.Steps.{moved, transition_cases}

-- A session goes forward one state at a time, may be given up from each state before, and is
-- removed once it is given up.
pub data Edge : Lifecycle → Lifecycle → Type 0 where
  begun : Edge new auth_pending
  accepted : Edge auth_pending authenticated
  approved : Edge authenticated active
  given_up_new : Edge new disconnecting
  given_up_pending : Edge auth_pending disconnecting
  given_up_authenticated : Edge authenticated disconnecting
  given_up_active : Edge active disconnecting
  gone : Edge disconnecting removed

lifecycle_of : ℕ → Lifecycle
lifecycle_of zero = new
lifecycle_of (suc zero) = auth_pending
lifecycle_of (suc (suc zero)) = authenticated
lifecycle_of (suc (suc (suc zero))) = active
lifecycle_of (suc (suc (suc (suc zero)))) = disconnecting
lifecycle_of (suc (suc (suc (suc (suc n))))) = removed

lifecycle_of-value : (a : Lifecycle) → lifecycle_of (lifecycle_value a) ≡ a
unfolding lifecycle_of
lifecycle_of-value new = refl
lifecycle_of-value auth_pending = refl
lifecycle_of-value authenticated = refl
lifecycle_of-value active = refl
lifecycle_of-value disconnecting = refl
lifecycle_of-value removed = refl

value_injective : (a b : Lifecycle) → lifecycle_value a ≡ lifecycle_value b → a ≡ b
value_injective a b e = sym (lifecycle_of-value a) ∙ ap lifecycle_of e ∙ lifecycle_of-value b

same_lifecycle_lem : (a b : Lifecycle) → same_lifecycle a b ≡ true → a ≡ b
same_lifecycle_lem a b e = value_injective a b (ground arith)

same_lifecycle_differs : (a b : Lifecycle) → same_lifecycle a b ≡ false → a ≢ b
same_lifecycle_differs a b e same = let equal = ap lifecycle_value same in absurd (ground arith)

Edge-allowed : {a b : Lifecycle} → Edge a b → is_allowed_transition a b ≡ true
unfolding is_allowed_transition
Edge-allowed begun = refl
Edge-allowed accepted = refl
Edge-allowed approved = refl
Edge-allowed given_up_new = refl
Edge-allowed given_up_pending = refl
Edge-allowed given_up_authenticated = refl
Edge-allowed given_up_active = refl
Edge-allowed gone = refl

-- A test for either of two states, each of them at an edge.
one_of :
    (a b c d : Lifecycle)
    → Edge a c
    → Edge a d
    → (same_lifecycle b c || same_lifecycle b d) ≡ true
    → Edge a b
one_of a b c d f g h = elim (Bool-cases (same_lifecycle b c)) [
  | inl e ↦ subst (Edge a) (sym (same_lifecycle_lem b c e)) f
  | inr e ↦ subst (Edge a) (sym (same_lifecycle_lem b d (ground arith))) g
]

allowed-Edge : (a b : Lifecycle) → is_allowed_transition a b ≡ true → Edge a b
unfolding is_allowed_transition
allowed-Edge new b h = one_of new b auth_pending disconnecting begun given_up_new h
allowed-Edge auth_pending b h =
    one_of auth_pending b authenticated disconnecting accepted given_up_pending h
allowed-Edge authenticated b h =
    one_of authenticated b active disconnecting approved given_up_authenticated h
allowed-Edge active b h =
    subst (Edge active) (sym (same_lifecycle_lem b disconnecting h)) given_up_active
allowed-Edge disconnecting b h =
    subst (Edge disconnecting) (sym (same_lifecycle_lem b removed h)) gone
allowed-Edge removed b h = absurd (ground arith)

forbidden-Edge : (a b : Lifecycle) → is_allowed_transition a b ≡ false → ¬ Edge a b
forbidden-Edge a b h e = let yes = Edge-allowed e in absurd (cc)

-- A transition of a present session has one of three outcomes. It is refused, with nothing
-- changed, if it is asked for by another generation than the session's, or names another state
-- than the one it is in, to which the diagram has no edge. Asked for by the session's own
-- generation, it is granted with nothing changed if it names the state the session is in, and
-- otherwise moves that one session along an edge of the diagram, with all else as it was. The
-- diagram has the edges NEW to AUTH_PENDING to AUTHENTICATED to ACTIVE, one to DISCONNECTING from
-- each of these four, and DISCONNECTING to REMOVED.
pub transition_lem :
    (s : RuntimeState) (account generation : ℕ) (next : Lifecycle) (session : Session)
    → find account s.steam2_users ≡ some session
    → ((transition s account generation next ≡ (s, false))
        × ((session.generation ≢ generation)
            ⊎ ((session.lifecycle ≢ next) × (¬ Edge session.lifecycle next))))
      ⊎ ((transition s account generation next ≡ (s, true))
          × (session.generation ≡ generation)
          × (session.lifecycle ≡ next))
      ⊎ ((transition s account generation next ≡ (moved s account session next, true))
          × (session.generation ≡ generation)
          × Edge session.lifecycle next)
transition_lem s account generation next session e =
    let from = session.lifecycle in
    elim (transition_cases s account generation next session e) [
      | inl (refused, inl other) ↦ inl (refused, inl other)
      | inl (refused, inr (away, forbidden)) ↦
          inl (
            refused,
            inr (same_lifecycle_differs from next away, forbidden-Edge from next forbidden),
          )
      | inr (inl (kept, own, there)) ↦ inr (inl (kept, own, value_injective from next there))
      | inr (inr (done, own, allowed)) ↦ inr (inr (done, own, allowed-Edge from next allowed))
    ]
