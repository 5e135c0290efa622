-- ===== src/Cache/Directory/Listing.antt =====
-- A search with a wildcard from `CacheFindFirst` through all calls of `CacheFindNext`.
use revive_emu.Base.{
  ℕ, zero, suc, ◌+◌, ◌≤◌, ◌<◌, true, Option, none, some, List, [], ◌∷◌, ◌≡◌, refl, sym, ap, ◌∙◌,
  arith, Bool-cases, Option-cases, inl, inr, ◌⊎◌,
}
use mathlib.Core.Option.{some-injective}
use mathlib.Core.List.{tail-eq_of_cons-eq}
use revive_emu.Base.Lists.{length, drop, keep}
use revive_emu.Cache.Mask.{is_matching}
use revive_emu.Cache.Directory.{
  Located, Directories, has_wildcard, scan, find_item, FindHandle, find_from, usable,
  cache_find_first, cache_find_next,
}

-- The items that a search answers from a handle on, with fuel for so many calls.
unfoldable pub rest_of : ℕ → FindHandle → Directories → List Located
rest_of zero h d = []
rest_of (suc fuel) h d = elim (cache_find_next h d) [
  | none ↦ []
  | some h' ↦ h'.item ∷ rest_of fuel h' d
]

-- All items that a search answers.
unfoldable pub listing : (List ℕ → Option (List ℕ)) → List ℕ → Directories → List Located
listing in_cache pattern d = elim (cache_find_first in_cache pattern d) [
  | none ↦ []
  | some h ↦ h.item ∷ rest_of (length d.table) h d
]

-- The entries whose names match.
unfoldable pub matches : List ℕ → List Located → List Located
matches pattern es = keep (λ e. is_matching e.full_name pattern) es

drop_step :
    (n : ℕ) (t : List Located) (e : Located) (es : List Located)
    → drop n t ≡ e ∷ es
    → drop (n + 1) t ≡ es
drop_step n t e es h = let step : n + 1 ≡ suc n = omega arith in ap (λ k. drop k t) step ∙ go n t h
  where
    go : (n : ℕ) (t : List Located) → drop n t ≡ e ∷ es → drop (suc n) t ≡ es
    go zero [] h = absurd cc
    go zero (x ∷ t) h = tail-eq_of_cons-eq h
    go (suc n) [] h = absurd cc
    go (suc n) (x ∷ t) h = go n t h

scan-none :
    (pattern : List ℕ) (i : ℕ) (es : List Located)
    → scan pattern i es ≡ none
    → matches pattern es ≡ []
unfolding scan matches
scan-none pattern i [] h = refl
scan-none pattern i (e ∷ es) h = ground (arith, scan-none pattern (i + 1) es)

-- What `scan` finds comes first, and the rest of the table behind it holds the others.
scan-some :
    (pattern : List ℕ) (i j : ℕ) (e : Located) (es t : List Located)
    → drop i t ≡ es
    → scan pattern i es ≡ some (e, j)
    → (matches pattern es ≡ e ∷ matches pattern (drop (j + 1) t))
      × (length (drop (j + 1) t) < length es)
unfolding scan matches
scan-some pattern i j e [] t h s = absurd cc
scan-some pattern i j e (f ∷ es) t h s =
    let next = drop_step i t f es h in
    elim (Bool-cases (is_matching f.full_name pattern)) [
      | inl m ↦
          let found = some-injective (f, i) (e, j) (rw m at s) in
          let same : f ≡ e = ap (λ r. r.0) found in
          let place : i ≡ j = ap (λ r. r.1) found in
          let there : drop (j + 1) t ≡ es = ap (λ k. drop (k + 1) t) (sym place) ∙ next in
          rw m (rw there (ap (λ x. x ∷ matches pattern es) same, omega arith))
      | inr m ↦
          let later = scan-some pattern (i + 1) j e es t next (rw m at s) in
          rw m (later.0, omega (arith, later.1))
    ]

-- The search with the handle's place in the table, whose rest is `es`.
pub find_from_lem :
    (start : ℕ) (pattern : List ℕ) (d : Directories)
    → has_wildcard pattern ≡ true
    → ((find_from start pattern d ≡ none) × (matches pattern (drop start d.table) ≡ []))
      ⊎ ((h : FindHandle) × (find_from start pattern d ≡ some h)
          × (h.cache_pattern ≡ pattern)
          × (matches pattern (drop start d.table)
              ≡ h.item ∷ matches pattern (drop (h.current_index + 1) d.table))
          × (length (drop (h.current_index + 1) d.table) < length (drop start d.table)))
unfolding find_from find_item
find_from_lem start pattern d w =
    let es = drop start d.table in
    elim (Option-cases (scan pattern start es)) [
      | inl n ↦ rw (find_from, find_item, w) (rw n (inl (refl, scan-none pattern start es n)))
      | inr (found, e) ↦
          let rest = scan-some pattern start found.1 found.0 es d.table refl e in
          rw (find_from, find_item, w)
            (rw e (
              inr (
                record { item = found.0; cache_pattern = pattern; current_index = found.1 },
                refl,
                refl,
                rest.0,
                rest.1,
              )))
    ]

pub matches_nil : (pattern : List ℕ) → matches pattern [] ≡ []
unfolding matches
matches_nil pattern = refl

rest_of_lem :
    (fuel : ℕ) (h : FindHandle) (d : Directories)
    → has_wildcard h.cache_pattern ≡ true
    → length (drop (h.current_index + 1) d.table) ≤ fuel
    → rest_of fuel h d ≡ matches h.cache_pattern (drop (h.current_index + 1) d.table)
unfolding rest_of cache_find_next
rest_of_lem zero h d w k =
    let nothing : drop (h.current_index + 1) d.table ≡ [] = empty _ (omega arith) in
    rw nothing (sym (matches_nil h.cache_pattern))
  where
    empty : (es : List Located) → length es ≤ 0 → es ≡ []
    empty [] l = refl
    empty (e ∷ es) l = absurd (omega arith)
rest_of_lem (suc fuel) h d w k = elim (find_from_lem (h.current_index + 1) h.cache_pattern d w) [
  | inl (none_left, nothing) ↦ rw (rest_of, none_left) (sym nothing)
  | inr (h', found, same, more, fewer) ↦
      rw (rest_of, found)
        (ap (λ es. h'.item ∷ es) (rest_of_lem fuel h' d (ap has_wildcard same ∙ w) (omega arith))
          ∙ ap (λ q. h'.item ∷ matches q (drop (h'.current_index + 1) d.table)) same
          ∙ sym more)
]

-- A search whose pattern, in the caches' form, is not empty and has a wildcard answers, from the
-- first call through one further call for each name of the table at most, exactly the entries of
-- the table whose names match, each once and in the table's order.
pub listing_lem :
    (in_cache : List ℕ → Option (List ℕ)) (pattern p : List ℕ) (d : Directories)
    → usable (in_cache pattern) ≡ some p
    → has_wildcard p ≡ true
    → listing in_cache pattern d ≡ keep (λ e. is_matching e.full_name p) d.table
unfolding listing cache_find_first matches
listing_lem in_cache pattern p d u w = elim (find_from_lem 0 p d w) [
  | inl (none_left, nothing) ↦ rw (listing, cache_find_first, u) (rw none_left (sym nothing))
  | inr (h, found, same, more, fewer) ↦
      rw (listing, cache_find_first, u)
        (rw found (
          ap (λ es. h.item ∷ es)
            (rest_of_lem (length d.table) h d (ap has_wildcard same ∙ w) (omega arith))
          ∙ ap (λ q. h.item ∷ matches q (drop (h.current_index + 1) d.table)) same
          ∙ sym more))
]
