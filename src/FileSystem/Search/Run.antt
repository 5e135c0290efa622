-- ===== src/FileSystem/Search/Run.antt =====
-- A run of calls on a handle as a run on its entry.
use revive_emu.Base.{
  ℕ, zero, suc, Option, none, some, List, [], ◌∷◌, ◌≡◌, refl, ap, ◌∙◌, arith, Option-cases, inl,
  inr,
}
use revive_emu.Base.Map.{Map, find, insert, update, find-update, find-insert}
use revive_emu.Cache.Outcome.{Outcome, done, out_of_fuel, ◌>>=◌, >>=-assoc, >>=-cong}
use revive_emu.Cache.Directory.{Directories, find_from, usable, cache_find_first}
use revive_emu.FileSystem.{Os, FileSystem, FindFilter, FindFileHandle, set_find, insert_new}
use revive_emu.FileSystem.Search.{ElementInfo, find_next_entry}
use revive_emu.FileSystem.Search.Calls.{steam_find_first, steam_find_next}
use revive_emu.FileSystem.Search.Steps.{collect, rest_of_entry}

pub cache_find_first-usable :
    (in_cache : List ℕ → Option (List ℕ)) (pattern p : List ℕ) (d : Directories)
    → usable (in_cache pattern) ≡ some p
    → cache_find_first in_cache pattern d ≡ find_from 0 p d
unfolding cache_find_first
cache_find_first-usable in_cache pattern p d u = rw (u, cache_find_first) refl

-- The table has an entry under a handle after a write to it.
pub find-update-insert_new :
    {V : Type 0} (k : ℕ) (v w : V) (m : Map V) → find k (update k v (insert_new k w m)) ≡ some v
unfolding insert_new
find-update-insert_new k v w m = elim (Option-cases (find k m)) [
  | inl free ↦
      rw (free, insert_new)
        (ground (arith, find-update k k v w (insert k w m), find-insert k k w m))
  | inr (x, taken) ↦ rw (taken, insert_new) (ground (arith, find-update k k v x m))
]

module _ {os : Os} where
  -- The elements that calls of `SteamFindNext` answer until one answers -1.
  unfoldable pub search_rest : ℕ → ℕ → FileSystem os → Outcome (List ElementInfo)
  search_rest zero h fs = out_of_fuel
  search_rest (suc fuel) h fs = steam_find_next h fs >>= λ a. elim a.value [
    | none ↦ done []
    | some e ↦ search_rest fuel h a.after >>= λ es. done (e ∷ es)
  ]

  -- All elements that a search answers, with fuel for the calls behind the first.
  unfoldable pub search : ℕ → List ℕ → FindFilter → FileSystem os → Outcome (List ElementInfo)
  search fuel pattern filter fs = steam_find_first pattern filter fs >>= λ a. elim a.value [
    | none ↦ done []
    | some (h, e) ↦ search_rest fuel h a.after >>= λ es. done (e ∷ es)
  ]

  search_rest-rest_of_entry :
      (fuel h : ℕ) (fs : FileSystem os) (f : FindFileHandle)
      → find h fs.finds ≡ some f
      → search_rest fuel h fs ≡ rest_of_entry os fuel fs.has_caches f fs.manager fs.world
  unfolding search_rest rest_of_entry steam_find_next set_find
  search_rest-rest_of_entry zero h fs f e = refl
  search_rest-rest_of_entry (suc fuel) h fs f e = rw e (
      >>=-assoc (find_next_entry os fs.has_caches f fs.manager fs.world) _ _
      ∙ >>=-cong (find_next_entry os fs.has_caches f fs.manager fs.world) _ _ (
          go λ g.
            search_rest-rest_of_entry fuel h (set_find h g fs) g
              (ground (arith, find-update h h g f fs.finds e))))
    where
      go :
          ((g : FindFileHandle)
            → search_rest fuel h (set_find h g fs)
              ≡ rest_of_entry os fuel fs.has_caches g fs.manager fs.world)
          → (r : Option ElementInfo × FindFileHandle)
          → elim r.0 as (λ _. Outcome (List ElementInfo)) [
            | none ↦ done []
            | some x ↦ search_rest fuel h (set_find h r.1 fs) >>= λ xs. done (x ∷ xs)
          ]
            ≡ collect (λ g. rest_of_entry os fuel fs.has_caches g fs.manager fs.world) r
      go same (none, g) = refl
      go same (some x, g) = ap (λ t. t >>= λ xs. done (x ∷ xs)) (same g)

  -- What a search behind its first call answers, for the entry that the first call left.
  pub search_behind :
      (fuel h : ℕ) (e : ElementInfo) (g : FindFileHandle) (fs fs' : FileSystem os)
      → find h fs'.finds ≡ some g
      → fs'.has_caches ≡ fs.has_caches
      → fs'.manager ≡ fs.manager
      → fs'.world ≡ fs.world
      → (search_rest fuel h fs' >>= λ es. done (e ∷ es))
        ≡ (rest_of_entry os fuel fs.has_caches g fs.manager fs.world >>= λ es. done (e ∷ es))
  search_behind fuel h e g fs fs' held a b c =
      ap (λ r. r >>= λ es. done (e ∷ es))
        (search_rest-rest_of_entry fuel h fs' g held
          ∙ ap (λ t. rest_of_entry os fuel t g fs'.manager fs'.world) a
          ∙ ap (λ t. rest_of_entry os fuel fs.has_caches g t fs'.world) b
          ∙ ap (λ t. rest_of_entry os fuel fs.has_caches g fs.manager t) c)
