-- ===== src/Base/Map.antt =====
-- `std::map` keyed by numbers, as the list of its entries in the order of the keys, which is the
-- order of its iterators.
use Prim.Native.Nat.{ℕ, ◌+◌, ◌≤◌}
use mathlib.Core.Path.{◌≡◌, refl}
use mathlib.Core.Logic.{◌⊎◌, inl, inr, ◌≢◌}
use native.Mathlib.Decide.{ℕ_discrete}
use mathlib.Core.Option.{Option, none, some}
use mathlib.Core.List.{List, [], ◌∷◌}
use native.Mathlib.Omega.{arith}
use revive_emu.Base.Tests.{if◌then◌else◌, ltb, ◌==◌}
use revive_emu.Base.Lists.{length}

abbrev pub Map {ℓ} : Type ℓ → Type ℓ
Map V = List (ℕ × V)

module _ {ℓ} {V : Type ℓ} where
  -- `m.find(k)`, with `none` for `m.end()`.
  unfoldable pub find : ℕ → Map V → Option V
  find k [] = none
  find k ((j, v) ∷ m) = if k == j then some v else find k m

  -- `m[k] = v`
  unfoldable pub insert : ℕ → V → Map V → Map V
  insert k v [] = (k, v) ∷ []
  insert k v ((j, w) ∷ m) =
      if k == j then (k, v) ∷ m else if ltb k j then (k, v) ∷ (j, w) ∷ m else (j, w) ∷ insert k v m

  -- `it->second = v`, where `it` is the entry of `k`.
  unfoldable pub update : ℕ → V → Map V → Map V
  update k v [] = []
  update k v ((j, w) ∷ m) = if k == j then (j, v) ∷ m else (j, w) ∷ update k v m

  -- `m.erase(k)`
  unfoldable pub erase : ℕ → Map V → Map V
  erase k [] = []
  erase k ((j, w) ∷ m) = if k == j then erase k m else (j, w) ∷ erase k m

  pub find-insert :
      (j k : ℕ) (v : V) (m : Map V) → find j (insert k v m) ≡ (if j == k then some v else find j m)
  unfolding find insert
  find-insert j k v [] = refl
  find-insert j k v ((i, w) ∷ m) = ground (arith, find-insert j k v m)

  pub find-update :
      (j k : ℕ) (v w : V) (m : Map V)
      → find k m ≡ some w
      → find j (update k v m) ≡ (if j == k then some v else find j m)
  unfolding find update
  find-update j k v w [] h = cc
  find-update j k v w ((i, x) ∷ m) h = ground (arith, find-update j k v w m)

  pub find-erase : (j k : ℕ) (m : Map V) → find j (erase k m) ≡ (if j == k then none else find j m)
  unfolding find erase
  find-erase j k [] = ground arith
  find-erase j k ((i, w) ∷ m) = ground (arith, find-erase j k m)

  pub erase-update : (k : ℕ) (v : V) (m : Map V) → erase k (update k v m) ≡ erase k m
  unfolding erase update
  erase-update k v [] = refl
  erase-update k v ((i, w) ∷ m) = ground (arith, erase-update k v m)

  pub length-insert-le : (k : ℕ) (v : V) (m : Map V) → length (insert k v m) ≤ length m + 1
  unfolding insert
  length-insert-le k v [] = omega arith
  length-insert-le k v ((i, w) ∷ m) = ground (arith, length-insert-le k v m)

  pub length-update : (k : ℕ) (v : V) (m : Map V) → length (update k v m) ≡ length m
  unfolding update
  length-update k v [] = refl
  length-update k v ((i, w) ∷ m) = ground (arith, length-update k v m)

  pub length-erase-le : (k : ℕ) (m : Map V) → length (erase k m) ≤ length m
  unfolding erase
  length-erase-le k [] = omega arith
  length-erase-le k ((i, w) ∷ m) = ground (arith, length-erase-le k m)

  -- What a look-up in a changed map found was there before, or is the change.
  pub find-erase-some :
      (j k : ℕ) (m : Map V) {x : V} → find j (erase k m) ≡ some x → (j ≢ k) × (find j m ≡ some x)
  find-erase-some j k m e = ground (arith, find-erase j k m)

  pub find-insert-some :
      (j k : ℕ) (v : V) (m : Map V) {x : V}
      → find j (insert k v m) ≡ some x
      → ((j ≡ k) × (x ≡ v)) ⊎ ((j ≢ k) × (find j m ≡ some x))
  find-insert-some j k v m e = elim (ℕ_discrete j k) [
    | yes same ↦ inl (same, ground (arith, find-insert j k v m))
    | no other ↦ inr (other, ground (arith, find-insert j k v m))
  ]

  pub find-update-some :
      (j k : ℕ) (v w : V) (m : Map V) {x : V}
      → find k m ≡ some w
      → find j (update k v m) ≡ some x
      → ((j ≡ k) × (x ≡ v)) ⊎ ((j ≢ k) × (find j m ≡ some x))
  find-update-some j k v w m h e = elim (ℕ_discrete j k) [
    | yes same ↦ inl (same, ground (arith, find-update j k v w m h))
    | no other ↦ inr (other, ground (arith, find-update j k v w m h))
  ]

  pub update-update : (k : ℕ) (v w : V) (m : Map V) → update k v (update k w m) ≡ update k v m
  unfolding update
  update-update k v w [] = refl
  update-update k v w ((i, x) ∷ m) = ground (arith, update-update k v w m)

  pub erase_absent : (k : ℕ) (m : Map V) → find k m ≡ none → erase k m ≡ m
  unfolding find erase
  erase_absent k [] h = refl
  erase_absent k ((i, x) ∷ m) h = ground (arith, erase_absent k m)

  pub erase-insert : (k : ℕ) (v : V) (m : Map V) → find k m ≡ none → erase k (insert k v m) ≡ m
  unfolding find insert erase
  erase-insert k v [] h = ground arith
  erase-insert k v ((i, x) ∷ m) h = ground (arith, erase-insert k v m, erase_absent k m)
