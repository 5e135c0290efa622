-- ===== src/FileSystem/Search.antt =====
-- The searches (Steam/steam/SteamFilesystem.h): `_findfirst` and its like over the entries of a
-- directory, and a step of `SteamFindNext` with what it calls of `CCacheFileSystem`
-- (Steam/steam/CacheSystem/CCacheSystem.h). The entries of a directory come in the order that
-- `scandir` sorts them in. Where `GetFilenameInCache` fails, it is taken to leave the pattern as it
-- was.
pub mod Calls
pub mod Steps
pub mod Rest
pub mod Run
pub mod Whole
use revive_emu.Base.{
  ℕ, ◌+◌, ◌%◌, Bool, true, false, ◌&&◌, ◌||◌, Option, none, some, List, [], ◌∷◌, ◌==◌,
  if◌then◌else◌, bit_and,
}
use revive_emu.Base.Bytes.{u32_mod}
use revive_emu.Base.Lists.{keep}
use revive_emu.Base.Text.{same_text}
use revive_emu.Cache.Outcome.{Outcome, done, fault, found, ◌>>=◌}
use revive_emu.Cache.Mount.{Manager}
use revive_emu.Cache.Names.{CacheItem}
use revive_emu.Cache.Directory.{Located, has_wildcard, FindHandle, find_from, usable}
use revive_emu.FileSystem.{
  Os, FileStatus, FindFilter, local_only, remote_only, all_places, other_filter, LocalFind,
  FindMember, no_find, local_find, find_in_cache, FindFileHandle, item_at,
}

-- TSteamElemInfo
pub record ElementInfo : Type 0 where
  pub is_dir : Bool
  pub size_or_count : ℕ
  pub is_local : Bool
  pub name : List ℕ
  pub last_access_time : ℕ
  pub last_modification_time : ℕ
  pub creation_time : ℕ

-- `st_mode & S_IFMT`, and its values for a directory and a regular file.
abbrev kind_of : FileStatus → ℕ
kind_of status = bit_and status.mode 0xF000

unfoldable pub is_directory : FileStatus → Bool
is_directory status = kind_of status == 0x4000

unfoldable pub is_listable : FileStatus → Bool
is_listable status = is_directory status || kind_of status == 0x8000

-- What a file of the disk is told as.
unfoldable pub local_element : List ℕ → FileStatus → ElementInfo
local_element name status = record {
  is_dir = is_directory status;
  size_or_count = status.size % u32_mod;
  is_local = true;
  name = name;
  last_access_time = status.access_time;
  last_modification_time = status.modification_time;
  creation_time = status.status_time;
}

-- What an item of a cache is told as; the root has no name to copy.
unfoldable pub cached_element : CacheItem → Outcome ElementInfo
cached_element item = found item.name >>= λ name. done (record {
  is_dir = item.type_of == 0;
  size_or_count = item.size;
  is_local = false;
  name = name;
  last_access_time = 0x44444444;
  last_modification_time = 0x44444444;
  creation_time = 0x44444444;
})

-- What the item of an entry of the tables is told as.
unfoldable pub element_at : Manager → Located → Outcome ElementInfo
element_at m e = item_at e.cache e.index m >>= λ (c, item). cached_element item

-- `"*.*"`
abbrev any_name : List ℕ
any_name = 0x2A ∷ 0x2E ∷ 0x2A ∷ []

module _ (os : Os) where
  -- `FindFileSelect` for the mask of a search.
  unfoldable pub find_file_select : List ℕ → List ℕ → Bool
  find_file_select mask name =
      if same_text name (0x2E ∷ []) || same_text name (0x2E ∷ 0x2E ∷ [])
      then false
      else (if has_wildcard mask
          then (if same_text mask any_name then true else os.fnmatch mask name)
          else os.same_ignoring_case mask name)

  -- `_findnext` over the names that are left: the element, unless it answers -1, and the names
  -- behind it.
  unfoldable pub find_next_name :
      List ℕ → List (List ℕ) → os.World → Option ElementInfo × List (List ℕ)
  find_next_name dir [] w = (none, [])
  find_next_name dir (n ∷ names) w =
      let rest = find_next_name dir names w in
      elim (os.stat (os.compose dir n) w) [
        | none ↦ rest
        | some status ↦ if is_listable status then (some (local_element n status), names) else rest
      ]

  unfoldable pub find_next_local : LocalFind → os.World → Option ElementInfo × LocalFind
  find_next_local lf w =
      let (e, names) = find_next_name lf.find_dir lf.names w in (e, record lf { names = names })

  -- `_findfirst`
  unfoldable pub find_first_local : List ℕ → os.World → Option (ElementInfo × LocalFind)
  find_first_local spec w =
      let dir = os.extract_path spec in
      let names = keep (find_file_select (os.platform.file_name spec)) (os.scan_directory dir w) in
      let (e, lf) = find_next_local (record { find_dir = dir; names = names }) w in
      elim e [ none ↦ none | some element ↦ some (element, lf) ]

  -- An entry of `g_FindFileHandles` that stands at an item of a cache.
  unfoldable pub at_item : FindFileHandle → FindHandle → FindFileHandle
  at_item f found_item = record f {
    member = find_in_cache found_item.item;
    current_index = found_item.current_index;
  }

  -- What a search in the caches found, told and written into the entry, or -1.
  unfoldable pub tell_found :
      FindFileHandle → Option FindHandle → Manager → Outcome (Option ElementInfo × FindFileHandle)
  tell_found f none m = done (none, f)
  tell_found f (some found_item) m =
      element_at m found_item.item >>= λ e. done (some e, at_item f found_item)

  -- `CacheFindNext`
  unfoldable pub next_in_cache :
      FindFileHandle → Manager → Outcome (Option ElementInfo × FindFileHandle)
  next_in_cache f m = tell_found f (find_from (f.current_index + 1) f.cache_pattern m.directories) m

  -- `CacheFindNextFromLocal`
  unfoldable pub cache_find_next_from_local :
      FindFileHandle → Manager → Outcome (Option ElementInfo × FindFileHandle)
  cache_find_next_from_local f m = elim (os.platform.in_cache f.pattern) [
    | none ↦ done (none, record f { is_find_local = false; cache_pattern = f.pattern })
    | some p ↦
        let f' : FindFileHandle = record f { is_find_local = false; cache_pattern = p } in
        elim (usable (some p)) [
          | none ↦ done (none, f')
          | some q ↦ tell_found f' (find_from 0 q m.directories) m
        ]
  ]

  -- Whether a search goes on in the caches after the files of the disk.
  unfoldable pub is_all : FindFilter → Bool
  is_all all_places = true
  is_all local_only = false
  is_all remote_only = false
  is_all other_filter = false

  -- A local search that goes on: with its next file, or in the caches when there is none.
  unfoldable pub find_next_from :
      Bool
      → FindFileHandle
      → Manager
      → Option ElementInfo × LocalFind
      → Outcome (Option ElementInfo × FindFileHandle)
  find_next_from has_caches f m (some e, lf) = done (some e, record f { member = local_find lf })
  find_next_from has_caches f m (none, lf) =
      if has_caches && is_all f.filter
      then cache_find_next_from_local f m
      else done (none, record f { member = local_find lf })

  -- `SteamFindNext` on an entry, by what `IsFindLocal` and the union are.
  unfoldable pub find_next_by :
      Bool
      → Bool
      → FindMember
      → FindFileHandle
      → Manager
      → os.World
      → Outcome (Option ElementInfo × FindFileHandle)
  find_next_by has_caches false member f m w = next_in_cache f m
  find_next_by has_caches true (local_find lf) f m w =
      find_next_from has_caches f m (find_next_local lf w)
  find_next_by has_caches true no_find f m w = fault
  find_next_by has_caches true (find_in_cache e) f m w = fault

  -- `SteamFindNext` on an entry: the element, unless it answers -1, and the entry.
  unfoldable pub find_next_entry :
      Bool → FindFileHandle → Manager → os.World → Outcome (Option ElementInfo × FindFileHandle)
  find_next_entry has_caches f m w =
      if has_wildcard f.pattern
      then find_next_by has_caches f.is_find_local f.member f m w
      else done (none, f)
