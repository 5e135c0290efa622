-- ===== src/Cache/Directory/Finding.antt =====
-- `CacheFindFile` by a name without wildcards, across a mount.
use revive_emu.Base.{ℕ, false, Option, some, List, ◌≡◌, refl, sym, ap, ◌∙◌, Option-cases, inl, inr}
use revive_emu.Cache.Directory.{
  Directories, lookup, build_global_directory_table, has_wildcard, find_item, usable,
  cache_find_file,
}
use revive_emu.Cache.Directory.Mounted.{or_else, first_named, lookup-build_global_directory_table}

cache_find_file-lookup :
    (in_cache : List ℕ → Option (List ℕ)) (name n : List ℕ) (d : Directories)
    → usable (in_cache name) ≡ some n
    → has_wildcard n ≡ false
    → cache_find_file in_cache name d ≡ lookup n d.hash
unfolding cache_find_file find_item
cache_find_file-lookup in_cache name n d u w = elim (Option-cases (lookup n d.hash)) [
  | inl g ↦ rw (cache_find_file, u) (rw (find_item, w) (rw g refl))
  | inr (e, g) ↦ rw (cache_find_file, u) (rw (find_item, w) (rw g refl))
]

-- A name that is, in the caches' form, not empty and without wildcards is found after a mount
-- where it was found before, and otherwise at the first item of that name in the cache.
pub cache_find_file-build_global_directory_table :
    (in_cache : List ℕ → Option (List ℕ)) (name n : List ℕ) (cache : ℕ) (names : List (List ℕ))
    (d : Directories)
    → usable (in_cache name) ≡ some n
    → has_wildcard n ≡ false
    → cache_find_file in_cache name (build_global_directory_table cache names d)
      ≡ or_else (cache_find_file in_cache name d) (first_named cache 1 names n)
cache_find_file-build_global_directory_table in_cache name n cache names d u w =
    cache_find_file-lookup in_cache name n (build_global_directory_table cache names d) u w
    ∙ lookup-build_global_directory_table n cache names d
    ∙ ap (λ o. or_else o (first_named cache 1 names n))
        (sym (cache_find_file-lookup in_cache name n d u w))
