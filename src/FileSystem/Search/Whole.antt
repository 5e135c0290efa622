-- ===== src/FileSystem/Search/Whole.antt =====
-- A search from `SteamFindFirst` through all calls of `SteamFindNext`.
use revive_emu.Base.{
  ℕ, ◌+◌, ◌<◌, true, Option, none, some, List, [], ◌∷◌, ◌++◌, ◌≡◌, refl, sym, ap, ◌∙◌, arith, inl,
  inr,
}
use revive_emu.Base.Lists.{length, drop, keep}
use revive_emu.Cache.Outcome.{Outcome, done, ◌>>=◌, >>=-assoc, >>=-cong}
use revive_emu.Cache.Mask.{is_matching}
use revive_emu.Cache.Directory.{has_wildcard, FindHandle, usable}
use revive_emu.Cache.Directory.Listing.{matches, find_from_lem}
use revive_emu.FileSystem.{
  Os, FileSystem, Answer, all_places, LocalFind, set_find, new_find_handle, zero_find,
}
use revive_emu.FileSystem.Search.{
  ElementInfo, element_at, find_file_select, find_first_local, find_next_local, at_item,
}
use revive_emu.FileSystem.Search.Calls.{
  steam_find_first, find_first_cached, first_local, first_from, tell_first, on_disk, in_caches,
}
use revive_emu.FileSystem.Search.Steps.{
  local_elements, names-HasNext, HasNext, elements_of, append_none,
}
use revive_emu.FileSystem.Search.Rest.{rest_of_cached, rest_of_local}
use revive_emu.FileSystem.Search.Run.{
  cache_find_first-usable, find-update-insert_new, search_rest, search, search_behind,
}

module _ {os : Os} where
  -- The names that a search on the disk goes through.
  abbrev pub names_for : List ℕ → FileSystem os → List (List ℕ)
  names_for pattern fs =
      keep (find_file_select os (os.platform.file_name pattern))
        (os.scan_directory (os.extract_path pattern) fs.world)

  -- The files of the disk that it answers.
  abbrev pub local_for : List ℕ → FileSystem os → List ElementInfo
  local_for pattern fs = local_elements os (os.extract_path pattern) (names_for pattern fs) fs.world

  abbrev first_of : Answer os (Option (ℕ × ElementInfo)) → ℕ → Outcome (List ElementInfo)
  first_of a fuel = elim a.value [
    | none ↦ done []
    | some (h, e) ↦ search_rest fuel h a.after >>= λ es. done (e ∷ es)
  ]

  search-first :
      (fuel : ℕ) (pattern : List ℕ) (fs : FileSystem os)
      → fs.has_caches ≡ true
      → search fuel pattern all_places fs ≡ (
          first_from true pattern all_places (find_first_local os pattern fs.world) fs >>= λ a.
          first_of a fuel)
  unfolding search steam_find_first first_local on_disk in_caches
  search-first fuel pattern fs on =
      ap
        (λ b. first_from b pattern all_places (first_local b pattern all_places fs) fs >>= λ a.
          first_of a fuel)
        on

  search_on_disk :
      (fuel : ℕ) (pattern p : List ℕ) (e : ElementInfo) (lf : LocalFind) (fs : FileSystem os)
      → fs.has_caches ≡ true
      → has_wildcard pattern ≡ true
      → usable (os.platform.in_cache pattern) ≡ some p
      → has_wildcard p ≡ true
      → length lf.names + length fs.manager.directories.table + 1 < fuel
      → (first_from true pattern all_places (some (e, lf)) fs >>= λ a. first_of a fuel) ≡ (
          elements_of fs.manager (matches p fs.manager.directories.table) >>= λ remote.
          done (e ∷ (local_elements os lf.find_dir lf.names fs.world ++ remote)))
  unfolding first_from new_find_handle set_find
  search_on_disk fuel pattern p e lf fs on wild u c k =
      search_behind fuel _ e _ fs _ (find-update-insert_new _ _ zero_find fs.finds) refl refl refl
      ∙ ap (λ r. r >>= λ es. done (e ∷ es))
          (rest_of_local os fs.has_caches fs.manager fs.world fuel _ lf p on refl refl refl wild u c
            k)
      ∙ >>=-assoc (elements_of fs.manager (matches p fs.manager.directories.table)) _ _

  -- A search whose first call found an item of a cache.
  search_item :
      (fuel : ℕ) (pattern : List ℕ) (h : FindHandle) (fs : FileSystem os)
      → has_wildcard pattern ≡ true
      → has_wildcard h.cache_pattern ≡ true
      → length (drop (h.current_index + 1) fs.manager.directories.table) < fuel
      → (tell_first pattern all_places fs (some h) >>= λ a. first_of a fuel)
        ≡ elements_of fs.manager (
            h.item
            ∷ matches h.cache_pattern (drop (h.current_index + 1) fs.manager.directories.table))
  unfolding tell_first new_find_handle set_find at_item elements_of
  search_item fuel pattern h fs wild c k =
      >>=-assoc (element_at fs.manager h.item) _ _
      ∙ >>=-cong (element_at fs.manager h.item) _ _ (λ e.
        search_behind fuel _ e _ fs _ (find-update-insert_new _ _ zero_find fs.finds) refl refl refl
        ∙ ap (λ r. r >>= λ es. done (e ∷ es))
            (rest_of_cached os fs.has_caches fs.manager fs.world fuel _ refl wild c k))

  search_in_caches :
      (fuel : ℕ) (pattern p : List ℕ) (fs : FileSystem os)
      → fs.has_caches ≡ true
      → has_wildcard pattern ≡ true
      → usable (os.platform.in_cache pattern) ≡ some p
      → has_wildcard p ≡ true
      → length fs.manager.directories.table < fuel
      → (first_from true pattern all_places none fs >>= λ a. first_of a fuel)
        ≡ elements_of fs.manager (matches p fs.manager.directories.table)
  unfolding first_from in_caches find_first_cached elements_of tell_first
  search_in_caches fuel pattern p fs on wild u c k =
      let d = fs.manager.directories in
      ap (λ o. tell_first pattern all_places fs o >>= λ a. first_of a fuel)
        (cache_find_first-usable os.platform.in_cache pattern p d u)
      ∙ elim (find_from_lem 0 p d c) [
        | inl (none_left, nothing) ↦
            ap (λ o. tell_first pattern all_places fs o >>= λ a. first_of a fuel) none_left
            ∙ ap (elements_of fs.manager) (sym nothing)
        | inr (h, there, same, more, fewer) ↦
            ap (λ o. tell_first pattern all_places fs o >>= λ a. first_of a fuel) there
            ∙ search_item fuel pattern h fs wild (ap has_wildcard same ∙ c) (omega arith)
            ∙ ap
                (λ q.
                  elements_of fs.manager (h.item ∷ matches q (drop (h.current_index + 1) d.table)))
                same
            ∙ ap (elements_of fs.manager) (sym more)
      ]

  -- `_findfirst` finds nothing, or the first of the files of the disk.
  search_either :
      (fuel : ℕ) (pattern p : List ℕ) (fs : FileSystem os)
      → fs.has_caches ≡ true
      → has_wildcard pattern ≡ true
      → usable (os.platform.in_cache pattern) ≡ some p
      → has_wildcard p ≡ true
      → length (names_for pattern fs) + length fs.manager.directories.table + 1 < fuel
      → (first_from true pattern all_places (find_first_local os pattern fs.world) fs >>= λ a.
          first_of a fuel)
        ≡ (elements_of fs.manager (matches p fs.manager.directories.table) >>= λ remote.
            done (local_for pattern fs ++ remote))
  unfolding find_first_local find_next_local HasNext
  search_either fuel pattern p fs on wild u c k =
      let dir = os.extract_path pattern in
      let remote = elements_of fs.manager (matches p fs.manager.directories.table) in
      let begin = λ (r : Option ElementInfo × List (List ℕ)).
        first_from true pattern all_places
          (elim r.0 as (λ _. Option (ElementInfo × LocalFind)) [
            | none ↦ none
            | some x ↦ some (x, record { find_dir = dir; names = r.1 })
          ])
          fs
        >>= λ a. first_of a fuel in
      elim (names-HasNext os dir (names_for pattern fs) fs.world) [
        | inl (none_left, nothing) ↦
            ap begin none_left
            ∙ search_in_caches fuel pattern p fs on wild u c (omega arith)
            ∙ sym (append_none remote)
            ∙ ap (λ es. remote >>= λ xs. done (es ++ xs)) (sym nothing)
        | inr (e, names, first, more, fewer) ↦
            ap begin first
            ∙ search_on_disk fuel pattern p e (record { find_dir = dir; names = names }) fs on wild
                u c (omega arith)
            ∙ ap (λ es. remote >>= λ xs. done (es ++ xs)) (sym more)
      ]

  -- A search in all places while caches may be used, whose pattern has a wildcard and, in the
  -- caches' form, is not empty and has one too, with fuel for two calls more than the names of the
  -- directory that are selected and of the table: the calls of `SteamFindFirst` and `SteamFindNext`
  -- answer first the files and directories of the disk among the selected names, in the order of the
  -- directory, and then, in the table's order, the items of the caches whose full names match; it is
  -- a fault just if one of these entries has no item to tell. The same holds if one of the two
  -- places has nothing.
  pub search_lem :
      (fuel : ℕ) (pattern p : List ℕ) (fs : FileSystem os)
      → fs.has_caches ≡ true
      → has_wildcard pattern ≡ true
      → usable (os.platform.in_cache pattern) ≡ some p
      → has_wildcard p ≡ true
      → length (names_for pattern fs) + length fs.manager.directories.table + 1 < fuel
      → search fuel pattern all_places fs ≡ (
          elements_of fs.manager
            (keep (λ e. is_matching e.full_name p) fs.manager.directories.table)
          >>= λ remote. done (local_for pattern fs ++ remote))
  unfolding matches
  search_lem fuel pattern p fs on wild u c k =
      search-first fuel pattern fs on ∙ search_either fuel pattern p fs on wild u c k
