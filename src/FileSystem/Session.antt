-- ===== src/FileSystem/Session.antt =====
-- A file of a cache from `SteamOpenFile2` over `SteamSeekFile` and `SteamReadFile` to
-- `SteamCloseFile`.
use revive_emu.Base.{ℕ, Bool, false, none, some, List, if◌then◌else◌}
use revive_emu.Base.Map.{Map, insert, update}
use revive_emu.Cache.Outcome.{Outcome, done, ◌>>=◌}
use revive_emu.Cache.Directory.{Located}
use revive_emu.Cache.Names.{CacheItem}
use revive_emu.Cache.Stream.{Stream, pos, set}
use revive_emu.FileSystem.{Os, FileHandle, FileSystem, Answer, zero_file, file_in_cache, no_error}
use revive_emu.FileSystem.Files.{steam_open_file2, Opened}
use revive_emu.FileSystem.Access.{steam_read_file, steam_close_file, steam_seek_file}

-- The entry of a file of a cache that was just opened.
abbrev pub fresh_entry : Located → List ℕ → FileHandle
fresh_entry e mode = record zero_file { member = file_in_cache e.cache e.index; mode = mode }

-- The table with an entry under a new handle.
module _ {os : Os} where
  abbrev pub with_entry : ℕ → FileHandle → FileSystem os → FileSystem os
  with_entry h f fs = record fs {
    last_handle = h;
    files = update h f (insert h zero_file fs.files);
  }

  -- What `SteamOpenFile2` answers for a file of a cache.
  abbrev opened :
      ℕ → Located → List ℕ → CacheItem → Bool → FileSystem os → os.World → Answer os Opened
  opened h e mode item wants_size fs w = record {
    value = record {
      handle = h;
      file_size = if wants_size then some item.size else none;
      is_local = some false;
    };
    error = no_error;
    after = with_entry h (fresh_entry e mode) (record fs { world = w });
  }

  -- Open, seek, read and close; the bytes read and their count, the error of the read, and the state.
  abbrev pub read_part :
      List ℕ
      → List ℕ
      → Bool
      → ℕ
      → ℕ
      → ℕ
      → FileSystem os
      → Outcome ((List ℕ × ℕ) × ℕ × FileSystem os)
  read_part name mode wants_size offset size count fs =
      steam_open_file2 name mode wants_size fs >>= λ a.
      steam_seek_file a.value.handle (pos offset) set a.after >>= λ b.
      steam_read_file size count a.value.handle b.after >>= λ c.
      steam_close_file a.value.handle c.after >>= λ d. done (c.value, c.error, d.after)
