-- ===== src/Cache/Names.antt =====
-- `CCache::Read` and `CCache::BuildDirectoryTable` (Steam/steam/CacheSystem/Cache/CCache.h): the
-- directory table of a cache, whose items are found from the root along the links of the manifest.
-- The table is the map of the items that were set; the others are zero. The path of an item is made
-- of the names above it and of the path that the cache is mounted under. `V_strlower` changes a
-- string byte by byte and is a parameter; that it also changes the names in the manifest is left
-- out, since whatever is made of a name is changed in that way itself. The `int` of the loop is below
-- 0 only for numbers that no manifest holds. The fuel bounds how deep the links lead, since links in
-- a ring keep the program going for ever.
pub mod Tree
use revive_emu.Base.{
  ℕ, zero, suc, ◌+◌, Bool, true, false, not, ◌&&◌, Option, none, some, List, [], ◌∷◌, ◌++◌, map,
  ◌==◌, if◌then◌else◌,
}
use revive_emu.Base.Bytes.{Memory}
use revive_emu.Base.Lists.{drop, get_elem?}
use revive_emu.Base.Map.{Map, insert}
use revive_emu.Cache.Outcome.{Outcome, done, out_of_fuel, found, ◌>>=◌}
use revive_emu.Cache.Layout.{Cache, ManifestEntry, read_cache}
use revive_emu.Cache.Chain.{FileInfo, build_file_info}
use revive_emu.Cache.Mask.{backslash}

-- TManifestEntriesInCache; `info` holds what `BuildFileInfo` sets, `name` is NULL for the root.
pub record CacheItem : Type 0 where
  pub name : Option (List ℕ)
  pub full_name : List ℕ
  pub size : ℕ
  pub type_of : ℕ
  pub parent_index : ℕ
  pub next_index : ℕ
  pub first_index : ℕ
  pub info : Option FileInfo

-- The C string at the start of an array, which has to end inside it.
unfoldable pub entry_text : List ℕ → Option (List ℕ)
entry_text [] = none
entry_text (zero ∷ cs) = some []
entry_text (suc c ∷ cs) = elim (entry_text cs) [ none ↦ none | some s ↦ some (suc c ∷ s) ]

-- `entryname`
unfoldable pub entry_name : Cache → ManifestEntry → Outcome (List ℕ)
entry_name c e = found (entry_text (drop e.name_offset c.manifest.file_names))

-- Whether `text` starts with `prefix`.
unfoldable pub has_prefix : List ℕ → List ℕ → Bool
has_prefix [] text = true
has_prefix (p ∷ prefix) [] = false
has_prefix (p ∷ prefix) (t ∷ text) = let rest = has_prefix prefix text in p == t && rest

-- `strstr(path, extra) == path + 1`
unfoldable pub occurs_second : List ℕ → List ℕ → Bool
occurs_second extra path = not (has_prefix extra path) && has_prefix extra (drop 1 path)

-- `ExtraMount`, as it is put before the path; nothing is put there for an empty `ExtraMountPath`.
unfoldable pub extra_mount : List ℕ → List ℕ → List ℕ
extra_mount [] path = []
extra_mount (c ∷ extra) path = if occurs_second (c ∷ extra) path then [] else backslash ∷ c ∷ extra

-- `entrypath`, lower-cased.
unfoldable pub entry_path : (ℕ → ℕ) → List ℕ → List ℕ → List ℕ → List ℕ
entry_path to_lower extra path name =
    map to_lower (extra_mount extra path ++ (path ++ backslash ∷ name))

-- The fields of an item that are copied, the name and the full name.
unfoldable pub new_item : (ℕ → ℕ) → ManifestEntry → List ℕ → List ℕ → Option FileInfo → CacheItem
new_item to_lower e name full info = record {
  name = some (map to_lower name);
  full_name = full;
  size = e.item_size;
  type_of = e.type_of;
  parent_index = e.parent_index;
  next_index = e.next_index;
  first_index = e.first_index;
  info = info;
}

-- The loop of `BuildDirectoryTable` from item `i` on, for items below `path`. `rounds` is the fuel
-- of `BuildFileInfo`.
unfoldable pub build_directory_table :
    (ℕ → ℕ) → ℕ → List ℕ → Cache → ℕ → ℕ → List ℕ → Map CacheItem → Outcome (Map CacheItem)
build_directory_table to_lower rounds extra c zero i path table = out_of_fuel
build_directory_table to_lower rounds extra c (suc fuel) i path table = elim (i == 0) [
  | true ↦ done table
  | false ↦ found (get_elem? c.manifest.entries i) >>= λ e. entry_name c e >>= λ name.
      let full = entry_path to_lower extra path name in
      (elim (e.type_of == 0) [
        | true ↦
            build_directory_table to_lower rounds extra c fuel e.first_index full
              (insert i (new_item to_lower e name full none) table)
        | false ↦ build_file_info rounds c i >>= λ info.
            done (insert i (new_item to_lower e name full (some info)) table)
      ])
      >>= λ table'. build_directory_table to_lower rounds extra c fuel e.next_index path table'
]

-- The item number 0, whose type stays 0.
unfoldable pub root_item : ManifestEntry → CacheItem
root_item e = record {
  name = none;
  full_name = backslash ∷ [];
  size = e.item_size;
  type_of = 0;
  parent_index = e.parent_index;
  next_index = e.next_index;
  first_index = e.first_index;
  info = none;
}

-- The directory table that `CCache::Read` makes.
unfoldable pub read_directory : (ℕ → ℕ) → ℕ → ℕ → List ℕ → Cache → Outcome (Map CacheItem)
read_directory to_lower rounds fuel extra c = found (get_elem? c.manifest.entries 0) >>= λ e.
    build_directory_table to_lower rounds extra c fuel e.first_index [] (insert 0 (root_item e) [])

-- `CCache::Read`: the cache and its directory table.
unfoldable pub read : (ℕ → ℕ) → ℕ → ℕ → List ℕ → Memory → Outcome (Cache × Map CacheItem)
read to_lower rounds fuel extra bytes = found (read_cache bytes) >>= λ c.
    read_directory to_lower rounds fuel extra c >>= λ table. done (c, table)
