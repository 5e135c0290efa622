-- ===== src/FileSystem.antt =====
-- Steam/steam/SteamFilesystem.h: the file functions of the Steam interface over the files of the
-- disk and of the mounted caches. This module has the tables of open files and searches with their
-- handles (`NewSteamHandle` is in Steam.cpp), the state and the answer of a call; the functions
-- themselves are in the modules below it, for a POSIX system whose `long` has 32 bits.
-- `Os` holds what the code calls of the C library, over a state of the disk and of the open `FILE`s
-- that is the parameter `World`, and of the string library. A handle that is not in its table is
-- NULL, which the functions follow without a test: a fault. So is a `FILE` pointer read where an
-- item's was written. The mutex is held throughout each call, and logging is left out.
pub mod Files
pub mod Access
pub mod Cached
pub mod Session
pub mod Extract
pub mod Search
pub mod Depots
mod Tests
use revive_emu.Base.{
  ℕ, ◌+◌, ◌-◌, ◌%◌, Bool, true, false, Option, none, some, List, [], ◌∷◌, ◌==◌, ltb, if◌then◌else◌,
}
use revive_emu.Base.Bytes.{u32_mod}
use revive_emu.Base.Map.{Map, find, insert, update, erase}
use revive_emu.Cache.Outcome.{Outcome, done, fault, found, ◌>>=◌}
use revive_emu.Cache.Chain.{FileInfo}
use revive_emu.Cache.Directory.{Located}
use revive_emu.Cache.Stream.{Stream, Long, pos, negsuc, SeekMethod}
use revive_emu.Cache.Names.{CacheItem}
use revive_emu.Cache.Mount.{Platform, MountedCache, Manager}

-- `struct stat`
pub record FileStatus : Type 0 where
  pub mode : ℕ
  pub size : ℕ
  pub access_time : ℕ
  pub modification_time : ℕ
  pub status_time : ℕ

-- The C library, on `FILE` pointers that are numbers; and the string library's paths. What `fread`
-- gives is the bytes put into the buffer and the count returned; `fresh_memory` is what a new array
-- of that size holds.
pub record Os : Type 1 where
  pub World : Type 0
  pub platform : Platform
  pub fopen : List ℕ → List ℕ → World → Option ℕ × World
  pub tmpfile : World → Option ℕ × World
  pub fread : ℕ → ℕ → ℕ → World → (List ℕ × ℕ) × World
  pub feof : ℕ → World → Bool
  pub fwrite : ℕ → List ℕ → ℕ → ℕ → World → ℕ × World
  pub fgetc : ℕ → World → Long × World
  pub fputc : ℕ → Long → World → Long × World
  pub vfprintf : ℕ → List ℕ → World → Long × World
  pub fseek : ℕ → Long → SeekMethod → World → Long × World
  pub ftell : ℕ → World → Long
  pub fflush : ℕ → World → Long × World
  pub setvbuf : ℕ → ℕ → ℕ → World → Long × World
  pub fclose : ℕ → World → Long × World
  pub stat : List ℕ → World → Option FileStatus
  pub list_directory : List ℕ → World → Option (List (List ℕ))
  pub scan_directory : List ℕ → World → List (List ℕ)
  pub mkdir : List ℕ → World → World
  pub fresh_memory : ℕ → List ℕ
  pub current_directory : World → List ℕ
  pub absolute_path : List ℕ → World → List ℕ
  pub extract_path : List ℕ → List ℕ
  pub compose : List ℕ → List ℕ → List ℕ
  pub same_ignoring_case : List ℕ → List ℕ → Bool
  pub fnmatch : List ℕ → List ℕ → Bool

-- The union of TFileInCacheHandle; an item goes by its cache's address and its number there.
pub data FileMember : Type 0 where
  no_file : FileMember
  local_file : ℕ → FileMember
  file_in_cache : ℕ → ℕ → FileMember

-- TFileInCacheHandle, without the handle itself, under which the table has it.
pub record FileHandle : Type 0 where
  pub is_file_local : Bool
  pub member : FileMember
  pub position : ℕ
  pub mode : List ℕ

-- ESteamFindFilter, and any other number.
pub data FindFilter : Type 0 where
  local_only remote_only all_places other_filter : FindFilter

-- TRevPosixFindHandle: the directory, and the names from `iCurFile` on.
pub record LocalFind : Type 0 where
  pub find_dir : List ℕ
  pub names : List (List ℕ)

-- The union of TFindHandle.
pub data FindMember : Type 0 where
  no_find : FindMember
  local_find : LocalFind → FindMember
  find_in_cache : Located → FindMember

-- TFindHandle, without the handle itself.
pub record FindFileHandle : Type 0 where
  pub is_find_local : Bool
  pub member : FindMember
  pub filter : FindFilter
  pub cache_pattern : List ℕ
  pub current_index : ℕ
  pub pattern : List ℕ

-- The globals: the counter in `NewSteamHandle`, `g_FileHandles`, `g_FindFileHandles`,
-- `g_CacheManager`, `g_bSteamStartup` and `g_bSteamFileSystem`; and the world.
pub record FileSystem (os : Os) : Type 0 where
  pub last_handle : ℕ
  pub files : Map FileHandle
  pub finds : Map FindFileHandle
  pub manager : Manager
  pub is_started : Bool
  pub has_caches : Bool
  pub world : os.World

-- What a call returns, `pError->eSteamError`, and the state after it.
pub record Answer (os : Os) (A : Type 0) : Type 0 where
  pub value : A
  pub error : ℕ
  pub after : FileSystem os

-- eSteamErrorNone and its like (SteamCommon.h)
abbrev pub no_error : ℕ
no_error = 0

abbrev pub unknown_error : ℕ
unknown_error = 1

abbrev pub error_library_not_initialized : ℕ
error_library_not_initialized = 2

abbrev pub error_bad_arg : ℕ
error_bad_arg = 8

abbrev pub error_not_found : ℕ
error_not_found = 9

abbrev pub error_eof : ℕ
error_eof = 11

abbrev pub error_access_denied : ℕ
error_access_denied = 105

-- STEAM_INVALID_HANDLE
abbrev pub invalid_handle : ℕ
invalid_handle = 0

-- `EOF` and -1
abbrev pub minus_one : Long
minus_one = negsuc 0

-- `NewSteamHandle`: the counter, which is also the handle.
unfoldable pub new_steam_handle : ℕ → ℕ
new_steam_handle last = let next = (last + 1) % u32_mod in if next == 0 then 1 else next

-- `insert`, which leaves an entry that is there.
unfoldable pub insert_new : {V : Type 0} → ℕ → V → Map V → Map V
insert_new k v m = elim (find k m) [ none ↦ insert k v m | some w ↦ m ]

-- The entry that `insert` then returns.
unfoldable pub entry_or : {V : Type 0} → V → Option V → V
entry_or v none = v
entry_or v (some w) = w

abbrev pub zero_file : FileHandle
zero_file = record { is_file_local = false; member = no_file; position = 0; mode = [] }

abbrev pub zero_find : FindFileHandle
zero_find = record {
  is_find_local = false;
  member = no_find;
  filter = local_only;
  cache_pattern = [];
  current_index = 0;
  pattern = [];
}

module _ {os : Os} where
  -- `NewSteamFileHandle`: the handle, and the entry to write into.
  unfoldable pub new_file_handle : FileSystem os → (ℕ × FileHandle) × FileSystem os
  new_file_handle fs =
      let h = new_steam_handle fs.last_handle in
      let entry = entry_or zero_file (find h fs.files) in
      ((h, entry), record fs { last_handle = h; files = insert_new h zero_file fs.files })

  -- A write through the pointer to an entry.
  unfoldable pub set_file : ℕ → FileHandle → FileSystem os → FileSystem os
  set_file h f fs = record fs { files = update h f fs.files }

  -- `CloseSteamFileHandle`
  unfoldable pub close_file_handle : ℕ → FileSystem os → FileSystem os
  close_file_handle h fs = record fs { files = erase h fs.files }

  -- `NewSteamFindFileHandle`
  unfoldable pub new_find_handle : FileSystem os → (ℕ × FindFileHandle) × FileSystem os
  new_find_handle fs =
      let h = new_steam_handle fs.last_handle in
      let entry = entry_or zero_find (find h fs.finds) in
      ((h, entry), record fs { last_handle = h; finds = insert_new h zero_find fs.finds })

  unfoldable pub set_find : ℕ → FindFileHandle → FileSystem os → FileSystem os
  set_find h f fs = record fs { finds = update h f fs.finds }

  -- `CloseSteamFindFileHandle`
  unfoldable pub close_find_handle : ℕ → FileSystem os → FileSystem os
  close_find_handle h fs = record fs { finds = erase h fs.finds }

-- What a pointer to an item of a cache points at.
unfoldable pub item_at : ℕ → ℕ → Manager → Outcome (MountedCache × CacheItem)
item_at address index m = found (find address m.caches) >>= λ (c : MountedCache).
    found (find index c.items) >>= λ (item : CacheItem). done (c, item)

-- What a test of `IsFileLocal` leads to: the `FILE` pointer, or `none` for an item of a cache.
unfoldable pub local_pointer : Bool → FileMember → Outcome (Option ℕ)
local_pointer true (local_file file) = done (some file)
local_pointer true no_file = fault
local_pointer true (file_in_cache c i) = fault
local_pointer false member = done none

-- `hFile->FileInCache` and its cache.
unfoldable pub item_of_file : FileMember → Manager → Outcome (MountedCache × CacheItem)
item_of_file (file_in_cache c i) m = item_at c i m
item_of_file (local_file file) m = fault
item_of_file no_file m = fault

-- `strchr(mode, 'b')`
unfoldable pub has_b : List ℕ → Bool
has_b [] = false
has_b (c ∷ mode) = let rest = has_b mode in if c == 0x62 then true else rest

unfoldable pub sectors_of : Option FileInfo → List ℕ
sectors_of none = []
sectors_of (some info) = info.sectors

-- An open file of a cache as the reading functions see it.
unfoldable pub stream_at : FileHandle → MountedCache → CacheItem → Stream
stream_at f c item = record {
  bytes = c.bytes;
  byte_count = c.byte_count;
  first_sector_offset = c.cache.sectors.first_sector_offset;
  physical_sector_size = c.cache.sectors.physical_sector_size;
  sectors = sectors_of item.info;
  size = item.size;
  position = f.position;
  is_binary = has_b f.mode;
}

unfoldable pub stream_of : FileHandle → Manager → Outcome Stream
stream_of f m = item_of_file f.member m >>= λ (c, item). done (stream_at f c item)

-- An `unsigned int` as an `int`.
unfoldable pub int_of : ℕ → Long
int_of n = if ltb n 0x80000000 then pos n else negsuc (u32_mod - 1 - n)
