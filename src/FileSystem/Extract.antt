-- ===== src/FileSystem/Extract.antt =====
-- `CreateDirHierarchy` and `CacheExtractFile` (Steam/steam/CacheSystem/CCacheSystem.h), which copy a
-- file of a cache to the disk, and `SteamGetLocalFileCopy` (Steam/steam/SteamFilesystem.h), which
-- calls them. The fuel of the copying loop is two more than the full buffers that the file fills.
pub mod Copy
use revive_emu.Base.{
  ℕ, zero, suc, ◌+◌, ◌-◌, ◌/◌, Bool, true, false, not, ◌&&◌, Option, none, some, List, [], ◌∷◌,
  ◌++◌, ◌==◌, if◌then◌else◌, bit_and,
}
use revive_emu.Base.Lists.{length, take, drop}
use revive_emu.Base.Map.{find}
use revive_emu.Cache.Outcome.{Outcome, done, out_of_fuel, found, ◌>>=◌}
use revive_emu.Cache.Stream.{Stream, min, read_file}
use revive_emu.Cache.Names.{CacheItem}
use revive_emu.FileSystem.{
  Os, FileStatus, FileHandle, FileSystem, Answer, no_error, error_not_found, item_of_file,
  stream_at, set_file, close_file_handle,
}
use revive_emu.FileSystem.Files.{get_file_caseless, cache_open_file}
use revive_emu.FileSystem.Access.{answer}

-- `CORRECT_PATH_SEPARATOR`
abbrev slash : ℕ
slash = 0x2F

abbrev is_nil : List ℕ → Bool
is_nil [] = true
is_nil (c ∷ cs) = false

-- The directories of the loop of `CreateDirHierarchy` from `before` on.
unfoldable pub directories_of : List ℕ → List ℕ → List (List ℕ)
directories_of before [] = []
directories_of before (c ∷ path) =
    let rest = directories_of (before ++ c ∷ []) path in
    if c == slash && not (is_nil before) then before ∷ rest else rest

-- `uBuffSize`
abbrev pub buffer_size : ℕ
buffer_size = 524288

-- The loop of `CacheExtractFile`: what it writes in order, from the buffer that each read fills from
-- its start.
unfoldable pub extract_loop : ℕ → Stream → ℕ → List ℕ → Outcome (List (List ℕ) × Stream)
extract_loop zero s left buffer = out_of_fuel
extract_loop (suc fuel) s left buffer =
    if left == 0
    then done ([], s)
    else (let n = min buffer_size left in
        read_file (some s) 1 n >>= λ (bytes, s'). found s' >>= λ t.
        let buffer' = bytes ++ drop (length bytes) buffer in
        extract_loop fuel t (left - n) buffer' >>= λ (more, t'). done (take n buffer' ∷ more, t'))

-- `S_IFREG`
abbrev pub regular : ℕ
regular = 0x8000

-- `buf.st_mode & S_IFREG`
abbrev is_regular : Option FileStatus → Bool
is_regular none = false
is_regular (some status) = not (bit_and status.mode regular == 0)

module _ (os : Os) where
  abbrev make_all : List (List ℕ) → os.World → os.World
  make_all [] w = w
  make_all (d ∷ ds) w = make_all ds (os.mkdir d w)

  -- `CreateDirHierarchy`
  unfoldable pub create_dir_hierarchy : List ℕ → os.World → os.World
  create_dir_hierarchy path w =
      let full = os.absolute_path path w in make_all (directories_of [] full ++ full ∷ []) w

  -- `fwrite` of one piece after another.
  abbrev pub write_all : ℕ → List (List ℕ) → os.World → os.World
  write_all file [] w = w
  write_all file (piece ∷ pieces) w =
      write_all file pieces (os.fwrite file piece 1 (length piece) w).1

  -- `_stat` of a name, or of the one that differs in case.
  unfoldable pub find_status : List ℕ → os.World → Option FileStatus
  find_status name w = elim (os.stat name w) [
    | some status ↦ some status
    | none ↦ elim (get_file_caseless os name w) [ none ↦ none | some fixed ↦ os.stat fixed w ]
  ]

  -- Where `CacheExtractFile` without a destination puts an item.
  abbrev pub target : CacheItem → os.World → List ℕ
  target item w = os.compose (os.current_directory w) item.full_name

  -- The file that `CacheExtractFile` writes, in the directory made for it.
  unfoldable pub open_target : CacheItem → os.World → Option ℕ × os.World
  open_target item w =
      let path = target item w in
      os.fopen path (0x77 ∷ 0x62 ∷ []) (create_dir_hierarchy (os.extract_path path) w)

module _ {os : Os} where
  -- `CacheExtractFile` with the file that it opened.
  unfoldable pub extract_to :
      ℕ → FileHandle → Stream → FileSystem os → Option ℕ × os.World → Outcome (Bool × FileSystem os)
  extract_to h f s fs (none, w) = done (false, record fs { world = w })
  extract_to h f s fs (some file, w) =
      extract_loop (suc (suc (s.size / buffer_size))) s s.size (os.fresh_memory buffer_size)
      >>= λ (pieces, s'). done (
        true,
        set_file h (record f { position = s'.position })
            (record fs { world = (os.fclose file (write_all os file pieces w)).1 }),
      )

  -- `CacheExtractFile(hFile, NULL)`: whether it answers 1.
  unfoldable pub cache_extract_file :
      ℕ → FileHandle → FileSystem os → Outcome (Bool × FileSystem os)
  cache_extract_file h f fs = item_of_file f.member fs.manager >>= λ (c, item).
      extract_to h f (stream_at f c item) fs (open_target os item fs.world)

  -- The search in the caches of `SteamGetLocalFileCopy`: the file is opened with "rb", extracted and
  -- closed.
  unfoldable pub copy_from_cache : List ℕ → FileSystem os → Outcome (Bool × FileSystem os)
  copy_from_cache name fs = cache_open_file name (0x72 ∷ 0x62 ∷ []) fs >>= λ (opened, fs1).
      elim opened [
        | none ↦ done (false, fs1)
        | some (h, size) ↦ found (find h fs1.files) >>= λ (f : FileHandle).
            cache_extract_file h f fs1 >>= λ (ok, fs2). done (ok, close_file_handle h fs2)
      ]

  -- `SteamGetLocalFileCopy`
  unfoldable pub steam_get_local_file_copy : List ℕ → FileSystem os → Outcome (Answer os Bool)
  steam_get_local_file_copy name fs =
      if is_regular (find_status os name fs.world)
      then answer true no_error fs
      else (if fs.has_caches
          then (copy_from_cache name fs >>= λ (ok, fs').
              answer ok (if ok then no_error else error_not_found) fs')
          else answer false error_not_found fs)
