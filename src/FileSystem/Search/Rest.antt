-- ===== src/FileSystem/Search/Rest.antt =====
-- A search from a handle on, through all calls of `SteamFindNext`.
use revive_emu.Base.{
  ℕ, zero, suc, ◌+◌, ◌<◌, Bool, true, false, ◌&&◌, Option, none, some, List, [], ◌∷◌, ◌++◌,
  if◌then◌else◌, ◌≡◌, refl, sym, ap, ◌∙◌, subst, arith, inl, inr,
}
use revive_emu.Base.Lists.{length, drop}
use revive_emu.Cache.Outcome.{done, ◌>>=◌, >>=-assoc, >>=-cong}
use revive_emu.Cache.Directory.{Located, has_wildcard, FindHandle, find_from, usable}
use revive_emu.Cache.Directory.Listing.{matches, find_from_lem}
use revive_emu.Cache.Mount.{Manager}
use revive_emu.FileSystem.{Os, all_places, LocalFind, local_find, FindFileHandle}
use revive_emu.FileSystem.Search.{
  element_at, find_next_local, at_item, tell_found, next_in_cache, cache_find_next_from_local,
  find_next_from, find_next_by, find_next_entry, is_all,
}
use revive_emu.FileSystem.Search.Steps.{
  collect, rest_of_entry, local_elements, names-HasNext, HasNext, elements_of, append_none,
}

usable-some :
    (o : Option (List ℕ)) (p : List ℕ)
    → usable o ≡ some p
    → (o ≡ some p) × (usable (some p) ≡ some p)
unfolding usable
usable-some none p e = absurd cc
usable-some (some []) p e = absurd cc
usable-some (some (c ∷ q)) p e = (e, subst (λ t. usable t ≡ some p) e e)

module _ (os : Os) (has_caches : Bool) (m : Manager) (w : os.World) where
  -- The run behind a step that found an item of a cache.
  tell_found_lem :
      (fuel : ℕ) (f : FindFileHandle) (h : FindHandle) (es : List Located)
      → rest_of_entry os fuel has_caches (at_item os f h) m w ≡ elements_of m es
      → (tell_found os f (some h) m >>= collect λ f'. rest_of_entry os fuel has_caches f' m w)
        ≡ elements_of m (h.item ∷ es)
  unfolding tell_found elements_of
  tell_found_lem fuel f h es rest =
      >>=-assoc (element_at m h.item) _ _
      ∙ >>=-cong (element_at m h.item) _ _ (λ x. ap (λ r. r >>= λ xs. done (x ∷ xs)) rest)

  -- What the code finds of the caches from a place on, and the run behind it.
  FindsFrom : ℕ → FindFileHandle → ℕ → Type 0
  FindsFrom fuel f start =
      (tell_found os f (find_from start f.cache_pattern m.directories) m
        >>= collect λ f'. rest_of_entry os fuel has_caches f' m w)
      ≡ elements_of m (matches f.cache_pattern (drop start m.directories.table))

  nothing-FindsFrom :
      (fuel : ℕ) (f : FindFileHandle) (start : ℕ)
      → find_from start f.cache_pattern m.directories ≡ none
      → matches f.cache_pattern (drop start m.directories.table) ≡ []
      → FindsFrom fuel f start
  unfolding FindsFrom tell_found elements_of
  nothing-FindsFrom fuel f start e h = rw e (rw h refl)

  found-FindsFrom :
      (fuel : ℕ) (f : FindFileHandle) (start : ℕ) (h : FindHandle)
      → find_from start f.cache_pattern m.directories ≡ some h
      → matches f.cache_pattern (drop start m.directories.table)
        ≡ h.item ∷ matches f.cache_pattern (drop (h.current_index + 1) m.directories.table)
      → rest_of_entry os fuel has_caches (at_item os f h) m w
        ≡ elements_of m (matches f.cache_pattern (drop (h.current_index + 1) m.directories.table))
      → FindsFrom fuel f start
  unfolding FindsFrom
  found-FindsFrom fuel f start h e k rest =
      ap (λ o. tell_found os f o m >>= collect λ f'. rest_of_entry os fuel has_caches f' m w) e
      ∙ tell_found_lem fuel f h _ rest
      ∙ ap (elements_of m) (sym k)

  -- A search that is in the caches answers the items that match behind its place.
  pub rest_of_cached :
      (fuel : ℕ) (f : FindFileHandle)
      → f.is_find_local ≡ false
      → has_wildcard f.pattern ≡ true
      → has_wildcard f.cache_pattern ≡ true
      → length (drop (f.current_index + 1) m.directories.table) < fuel
      → rest_of_entry os fuel has_caches f m w
        ≡ elements_of m (matches f.cache_pattern (drop (f.current_index + 1) m.directories.table))
  unfolding rest_of_entry find_next_entry find_next_by next_in_cache FindsFrom at_item
  rest_of_cached zero f l p c k = absurd (omega arith)
  rest_of_cached (suc fuel) f l p c k =
      let rest = λ (g : FindFileHandle). rest_of_entry os fuel has_caches g m w in
      let start = f.current_index + 1 in
      let step =
        ap
          (λ b.
            (if b
              then find_next_by os has_caches f.is_find_local f.member f m w
              else done (none, f))
            >>= collect rest)
          p
        ∙ ap (λ b. find_next_by os has_caches b f.member f m w >>= collect rest) l in
      step ∙ elim (find_from_lem start f.cache_pattern m.directories c) [
        | inl (none_left, nothing) ↦ nothing-FindsFrom fuel f start none_left nothing
        | inr (h, there, same, more, fewer) ↦
            found-FindsFrom fuel f start h there more
              (rest_of_cached fuel (at_item os f h) l p c (omega arith))
      ]

  cache_find_next_from_local_lem :
      (f : FindFileHandle) (p : List ℕ)
      → usable (os.platform.in_cache f.pattern) ≡ some p
      → cache_find_next_from_local os f m
        ≡ tell_found os
            (record f { is_find_local = false; cache_pattern = p })
            (find_from 0 p m.directories)
            m
  unfolding cache_find_next_from_local
  cache_find_next_from_local_lem f p u =
      let (there, same) = usable-some (os.platform.in_cache f.pattern) p u in
      rw (there, cache_find_next_from_local) (rw same refl)

  -- The step from the disk to the caches.
  switched :
      (fuel : ℕ) (f : FindFileHandle) (p : List ℕ)
      → has_wildcard f.pattern ≡ true
      → usable (os.platform.in_cache f.pattern) ≡ some p
      → has_wildcard p ≡ true
      → length m.directories.table < fuel
      → (cache_find_next_from_local os f m >>= collect λ g. rest_of_entry os fuel has_caches g m w)
        ≡ elements_of m (matches p m.directories.table)
  unfolding FindsFrom at_item
  switched fuel f p wild u c k =
      let f' : FindFileHandle = record f { is_find_local = false; cache_pattern = p } in
      ap (λ r. r >>= collect λ g. rest_of_entry os fuel has_caches g m w)
        (cache_find_next_from_local_lem f p u)
      ∙ elim (find_from_lem 0 p m.directories c) [
        | inl (none_left, nothing) ↦ nothing-FindsFrom fuel f' 0 none_left nothing
        | inr (h, first, q, more, fewer) ↦
            found-FindsFrom fuel f' 0 h first more
              (rest_of_cached fuel (at_item os f' h) refl wild c (omega arith))
      ]

  -- A search on the disk answers the files of the disk that are left, and then those of the caches.
  pub rest_of_local :
      (fuel : ℕ) (f : FindFileHandle) (lf : LocalFind) (p : List ℕ)
      → has_caches ≡ true
      → f.is_find_local ≡ true
      → f.member ≡ local_find lf
      → f.filter ≡ all_places
      → has_wildcard f.pattern ≡ true
      → usable (os.platform.in_cache f.pattern) ≡ some p
      → has_wildcard p ≡ true
      → length lf.names + length m.directories.table + 1 < fuel
      → rest_of_entry os fuel has_caches f m w ≡ (
          elements_of m (matches p m.directories.table) >>= λ remote.
          done (local_elements os lf.find_dir lf.names w ++ remote))
  unfolding rest_of_entry find_next_entry find_next_by find_next_local find_next_from HasNext is_all
  rest_of_local zero f lf p on l member filter wild u c k = absurd (omega arith)
  rest_of_local (suc fuel) f lf p on l member filter wild u c k =
      let rest = λ (g : FindFileHandle). rest_of_entry os fuel has_caches g m w in
      let step =
        ap
          (λ b.
            (if b
              then find_next_by os has_caches f.is_find_local f.member f m w
              else done (none, f))
            >>= collect rest)
          wild
        ∙ ap (λ b. find_next_by os has_caches b f.member f m w >>= collect rest) l
        ∙ ap (λ t. find_next_by os has_caches true t f m w >>= collect rest) member in
      step ∙ elim (names-HasNext os lf.find_dir lf.names w) [
        | inl (none_left, nothing) ↦
            ap
              (λ r.
                find_next_from os has_caches f m (r.0, record lf { names = r.1 }) >>= collect rest)
              none_left
            ∙ ap
                (λ b.
                  (if b && is_all os f.filter
                    then cache_find_next_from_local os f m
                    else done (none, record f { member = local_find (record lf { names = [] }) }))
                  >>= collect rest)
                on
            ∙ ap
                (λ t.
                  (if is_all os t
                    then cache_find_next_from_local os f m
                    else done (none, record f { member = local_find (record lf { names = [] }) }))
                  >>= collect rest)
                filter
            ∙ switched fuel f p wild u c (omega arith)
            ∙ sym (append_none (elements_of m (matches p m.directories.table)))
            ∙ ap
                (λ es.
                  elements_of m (matches p m.directories.table) >>= λ remote. done (es ++ remote))
                (sym nothing)
        | inr (e, names, first, more, fewer) ↦
            let lf' : LocalFind = record lf { names = names } in
            ap
              (λ r.
                find_next_from os has_caches f m (r.0, record lf { names = r.1 }) >>= collect rest)
              first
            ∙ ap (λ r. r >>= λ xs. done (e ∷ xs))
                (rest_of_local fuel (record f { member = local_find lf' }) lf' p on l refl filter
                  wild u c (omega arith))
            ∙ >>=-assoc (elements_of m (matches p m.directories.table)) _ _
            ∙ ap
                (λ es.
                  elements_of m (matches p m.directories.table) >>= λ remote. done (es ++ remote))
                (sym more)
      ]
