-- ===== src/Cache/Directory.antt =====
-- The names of the files of all mounted caches (Steam/steam/CacheSystem/CCacheSystem.h):
-- `GlobalDirectoryTable` and `HashTable`, how `BuildGlobalDirectoryTable` fills them, and how
-- `FindItem`, `CacheFindFile`, `CacheFindFirst` and `CacheFindNext` search them. The hash table is the
-- list of its entries by their names, since nothing depends on where they stand. `GetFilenameInCache`,
-- which makes a pattern's form in a cache by the `V_` functions, is a parameter. There are less than
-- 2 ^ 32 names.
pub mod Order
pub mod Mounted
pub mod Listing
pub mod Finding
use revive_emu.Base.{
  ℕ, zero, suc, ◌+◌, Bool, true, false, not, ◌||◌, Option, none, some, List, [], ◌∷◌, ◌++◌, ◌==◌,
  ltb, if◌then◌else◌,
}
use revive_emu.Base.Lists.{drop}
use revive_emu.Base.Text.{same_text}
use revive_emu.Cache.Mask.{star, question, is_matching}

-- TGlobalDirectory
pub record Located : Type 0 where
  pub cache : ℕ
  pub full_name : List ℕ
  pub index : ℕ

-- CCacheFileSystem
pub record Directories : Type 0 where
  pub table : List Located
  pub hash : List Located

-- `HashTable.find`
unfoldable pub lookup : List ℕ → List Located → Option Located
lookup name [] = none
lookup name (e ∷ es) =
    let rest = lookup name es in if same_text e.full_name name then some e else rest

-- A round of the loop: `HashTable.insert`, and the entry in the table if it was new.
unfoldable pub add_name : Located → Directories → Directories
add_name e d = elim (lookup e.full_name d.hash) [
  | none ↦ record { table = d.table ++ e ∷ []; hash = e ∷ d.hash }
  | some old ↦ d
]

-- The loop over the items of a cache from number `i` on.
unfoldable pub add_names : ℕ → ℕ → List (List ℕ) → Directories → Directories
add_names cache i [] d = d
add_names cache i (name ∷ names) d =
    add_names cache (i + 1) names
      (add_name (record { cache = cache; full_name = name; index = i }) d)

-- `strcmp(a, b) < 0`
unfoldable pub text_less : List ℕ → List ℕ → Bool
text_less a [] = false
text_less [] (y ∷ b) = true
text_less (x ∷ a) (y ∷ b) =
    let rest = text_less a b in if ltb x y then true else (if x == y then rest else false)

-- `std::sort` by the names, which are all different.
unfoldable pub insert_sorted : Located → List Located → List Located
insert_sorted e [] = e ∷ []
insert_sorted e (f ∷ fs) =
    let rest = insert_sorted e fs in
    if text_less f.full_name e.full_name then f ∷ rest else e ∷ f ∷ fs

unfoldable pub sort : List Located → List Located
sort [] = []
sort (e ∷ es) = insert_sorted e (sort es)

-- `BuildGlobalDirectoryTable` for a cache that is not mounted yet, with the full names of its items
-- behind the first.
unfoldable pub build_global_directory_table : ℕ → List (List ℕ) → Directories → Directories
build_global_directory_table cache names d =
    let d' = add_names cache 1 names d in record { table = sort d'.table; hash = d'.hash }

-- `strpbrk(cszPattern, "?*")`
unfoldable pub has_wildcard : List ℕ → Bool
has_wildcard [] = false
has_wildcard (c ∷ pattern) = let rest = has_wildcard pattern in c == question || (c == star || rest)

-- The loop of `FindItem` from number `i` on.
unfoldable pub scan : List ℕ → ℕ → List Located → Option (Located × ℕ)
scan pattern i [] = none
scan pattern i (e ∷ es) =
    let rest = scan pattern (i + 1) es in
    if is_matching e.full_name pattern then some (e, i) else rest

-- `FindItem`: the item, and `*pItemIndex`.
unfoldable pub find_item : ℕ → List ℕ → Directories → Option (Located × ℕ)
find_item start pattern d =
    if has_wildcard pattern
    then scan pattern start (drop start d.table)
    else elim (lookup pattern d.hash) [ none ↦ none | some e ↦ some (e, 0) ]

-- TFindHandle, of a search in the caches.
pub record FindHandle : Type 0 where
  pub item : Located
  pub cache_pattern : List ℕ
  pub current_index : ℕ

-- The search with a handle, where it finds anything.
unfoldable pub find_from : ℕ → List ℕ → Directories → Option FindHandle
find_from start pattern d = elim (find_item start pattern d) [
  | none ↦ none
  | some (e, i) ↦ some (record { item = e; cache_pattern = pattern; current_index = i })
]

-- Whether a name is in the caches' form and not empty.
unfoldable pub usable : Option (List ℕ) → Option (List ℕ)
usable none = none
usable (some []) = none
usable (some (c ∷ name)) = some (c ∷ name)

-- `CacheFindFile`
unfoldable pub cache_find_file : (List ℕ → Option (List ℕ)) → List ℕ → Directories → Option Located
cache_find_file in_cache name d = elim (usable (in_cache name)) [
  | none ↦ none
  | some n ↦ elim (find_item 0 n d) [ none ↦ none | some (e, i) ↦ some e ]
]

-- `CacheFindFirst`: the handle, unless the answer is NULL.
unfoldable pub cache_find_first :
    (List ℕ → Option (List ℕ)) → List ℕ → Directories → Option FindHandle
cache_find_first in_cache pattern d = elim (usable (in_cache pattern)) [
  | none ↦ none
  | some p ↦ find_from 0 p d
]

-- `CacheFindNext`: the handle after it, unless the answer is -1.
unfoldable pub cache_find_next : FindHandle → Directories → Option FindHandle
cache_find_next h d = find_from (h.current_index + 1) h.cache_pattern d
