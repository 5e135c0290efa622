-- ===== src/Sessions/Table.antt =====
-- What holds of the session table between two calls: its size, the generations, the binding of
-- identities and the lifecycle states; and how the four kinds of writes keep it.
use revive_emu.Base.{
  ℕ, ◌≤◌, ◌<◌, ◌≡◌, ◌≢◌, ◌⊎◌, inl, inr, refl, sym, ◌∙◌, ap, true, false, some, [], arith,
}
use revive_emu.Base.Lists.{length}
use revive_emu.Base.Map.{
  Map, find, insert, update, erase, find-erase-some, find-insert-some, find-update-some,
  length-erase-le, length-insert-le, length-update,
}
use revive_emu.SteamId.{convert_to_uint64}
use revive_emu.Runtime.{
  Session, Lifecycle, new, auth_pending, authenticated, active, max_steam2_sessions,
}

-- A session is a bare reservation, or it is bound to an identity and on its way to ACTIVE.
abbrev pub IsStaged : Session → Type 0
IsStaged x =
    ((x.identity_bound ≡ false) × (x.lifecycle ≡ new))
    ⊎ ((x.identity_bound ≡ true)
        × ((x.lifecycle ≡ auth_pending) ⊎ (x.lifecycle ≡ authenticated) ⊎ (x.lifecycle ≡ active)))

pub record IsTable (m : Map Session) (g : ℕ) : Type 0 where
  pub room : length m ≤ max_steam2_sessions
  pub current : (k : ℕ) (x : Session) → find k m ≡ some x → (0 < x.generation) × (x.generation ≤ g)
  pub own_generation :
      (k j : ℕ) (x y : Session)
      → find k m ≡ some x
      → find j m ≡ some y
      → x.generation ≡ y.generation
      → k ≡ j
  pub own_identity :
      (k j : ℕ) (x y : Session)
      → find k m ≡ some x
      → find j m ≡ some y
      → x.identity_bound ≡ true
      → y.identity_bound ≡ true
      → convert_to_uint64 x.steam_id ≡ convert_to_uint64 y.steam_id
      → k ≡ j
  pub staged : (k : ℕ) (x : Session) → find k m ≡ some x → IsStaged x

pub empty-IsTable : IsTable [] 0
unfolding find
empty-IsTable = record {
  room = omega arith;
  current = λ k x e. cc;
  own_generation = λ k j x y e f h. cc;
  own_identity = λ k j x y e f b c h. cc;
  staged = λ k x e. cc;
}

module _ (m : Map Session) (g : ℕ) (t : IsTable m g) (account : ℕ) where
  pub erase-IsTable : IsTable (erase account m) g
  erase-IsTable = record {
    room = omega (arith, length-erase-le account m, t.room);
    current = λ k x e. t.current k x (find-erase-some k account m e).1;
    own_generation = λ k j x y e f.
        t.own_generation k j x y (find-erase-some k account m e).1
          (find-erase-some j account m f).1;
    own_identity = λ k j x y e f.
        t.own_identity k j x y (find-erase-some k account m e).1 (find-erase-some j account m f).1;
    staged = λ k x e. t.staged k x (find-erase-some k account m e).1;
  }

  -- A new reservation under a generation that no session has had.
  pub insert-IsTable :
      (g' : ℕ) (v : Session)
      → length m < max_steam2_sessions
      → g < g'
      → v.generation ≡ g'
      → v.identity_bound ≡ false
      → v.lifecycle ≡ new
      → IsTable (insert account v m) g'
  insert-IsTable g' v small later gen free start = record {
    room = omega (arith, length-insert-le account v m);
    current = λ k x e. elim (find-insert-some k account v m e) [
      | inl (at, is) ↦ rw is (omega arith)
      | inr (off, old) ↦ omega (arith, t.current k x old)
    ];
    own_generation = λ k j x y e f same. elim (find-insert-some k account v m e) [
      | inl (at, is) ↦ elim (find-insert-some j account v m f) [
        | inl (at', is') ↦ at ∙ sym at'
        | inr (off', old') ↦
            absurd (omega (arith, t.current j y old', ap (λ (z : Session). z.generation) is))
      ]
      | inr (off, old) ↦ elim (find-insert-some j account v m f) [
        | inl (at', is') ↦
            absurd (omega (arith, t.current k x old, ap (λ (z : Session). z.generation) is'))
        | inr (off', old') ↦ t.own_generation k j x y old old' same
      ]
    ];
    own_identity = λ k j x y e f b c same. elim (find-insert-some k account v m e) [
      | inl (at, is) ↦ cc
      | inr (off, old) ↦ elim (find-insert-some j account v m f) [
        | inl (at', is') ↦ cc
        | inr (off', old') ↦ t.own_identity k j x y old old' b c same
      ]
    ];
    staged = λ k x e. elim (find-insert-some k account v m e) [
      | inl (at, is) ↦ rw is (inl (free, start))
      | inr (off, old) ↦ t.staged k x old
    ];
  }

  -- A session rewritten under its own generation, to a staged one whose identity, if bound, is
  -- bound to no other account.
  pub update-IsTable :
      (v w : Session)
      → find account m ≡ some w
      → v.generation ≡ w.generation
      → IsStaged v
      → (v.identity_bound ≡ true
          → (j : ℕ) (y : Session) → j ≢ account
          → find j m ≡ some y
          → y.identity_bound ≡ true
          → convert_to_uint64 y.steam_id ≢ convert_to_uint64 v.steam_id)
      → IsTable (update account v m) g
  update-IsTable v w at_account gen stage alone = record {
    room = omega (arith, length-update account v m, t.room);
    current = λ k x e. elim (find-update-some k account v w m at_account e) [
      | inl (at, is) ↦ rw (is, gen) (t.current account w at_account)
      | inr (off, old) ↦ t.current k x old
    ];
    own_generation = λ k j x y e f same. elim (find-update-some k account v w m at_account e) [
      | inl (at, is) ↦ elim (find-update-some j account v w m at_account f) [
        | inl (at', is') ↦ at ∙ sym at'
        | inr (off', old') ↦ at ∙ t.own_generation account j w y at_account old' (cc)
      ]
      | inr (off, old) ↦ elim (find-update-some j account v w m at_account f) [
        | inl (at', is') ↦ t.own_generation k account x w old at_account (cc) ∙ sym at'
        | inr (off', old') ↦ t.own_generation k j x y old old' same
      ]
    ];
    own_identity = λ k j x y e f b c same. elim (find-update-some k account v w m at_account e) [
      | inl (at, is) ↦ elim (find-update-some j account v w m at_account f) [
        | inl (at', is') ↦ at ∙ sym at'
        | inr (off', old') ↦ absurd (alone (cc) j y off' old' c (cc))
      ]
      | inr (off, old) ↦ elim (find-update-some j account v w m at_account f) [
        | inl (at', is') ↦ absurd (alone (cc) k x off old b (cc))
        | inr (off', old') ↦ t.own_identity k j x y old old' b c same
      ]
    ];
    staged = λ k x e. elim (find-update-some k account v w m at_account e) [
      | inl (at, is) ↦ rw is stage
      | inr (off, old) ↦ t.staged k x old
    ];
  }

  -- A transition along the diagram, short of DISCONNECTING, of a bound session.
  pub move-IsTable :
      (w : Session) (l : Lifecycle)
      → find account m ≡ some w
      → w.identity_bound ≡ true
      → (l ≡ auth_pending) ⊎ (l ≡ authenticated) ⊎ (l ≡ active)
      → IsTable (update account (record w { lifecycle = l }) m) g
  move-IsTable w l at_account bound stage =
      update-IsTable (record w { lifecycle = l }) w at_account refl (inr (bound, stage))
        λ b j y off old c same. off (t.own_identity j account y w old at_account c b same)
