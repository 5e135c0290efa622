-- ===== src/FileSystem/Tests.antt =====
-- A cache with the directory `A`, the file `B` of 7 bytes in it, and its two sectors of 4 bytes in
-- the other order; and a disk that keeps the bytes written last.
mod Caches
mod Files
mod Search
use revive_emu.Base.{ℕ, ◌+◌, true, false, none, some, List, [], ◌∷◌, ◌==◌, if◌then◌else◌}
use revive_emu.Base.Bytes.{Memory}
use revive_emu.Base.Text.{same_text}
use revive_emu.Cache.Layout.{Cache, ManifestEntry}
use revive_emu.Cache.Chain.{FileInfo}
use revive_emu.Cache.Directory.{Located}
use revive_emu.Cache.Names.{CacheItem}
use revive_emu.Cache.Mount.{Platform, MountedCache, Manager}
use revive_emu.Cache.Stream.{pos}
use revive_emu.FileSystem.{Os, FileSystem, minus_one}

-- `tolower` on a byte of ASCII.
abbrev lower : ℕ → ℕ
lower c = if c == 0x41 then 0x61 else (if c == 0x42 then 0x62 else c)

abbrev entry_of : ℕ → ℕ → ℕ → ℕ → ℕ → ManifestEntry
entry_of name size kind next first = record {
  name_offset = name;
  item_size = size;
  checksum_index = 0;
  type_of = kind;
  parent_index = 0;
  next_index = next;
  first_index = first;
}

abbrev root_entry : ManifestEntry
root_entry = entry_of 0 1 0 0 1

abbrev entry_a : ManifestEntry
entry_a = entry_of 0 1 0 0 2

abbrev entry_b : ManifestEntry
entry_b = entry_of 2 7 0x4000 0 0

abbrev cache_ab : Cache
cache_ab = record {
  header = record {
    file_type = 1;
    cache_file_version = 1;
    cache_id = 7;
    cache_version = 1;
    file_size = 10;
    physical_sector_size = 4;
    sector_count = 2;
  };
  blocks =
      record {
        entry_type = 5;
        file_data_offset = 0;
        file_data_size = 7;
        first_data_block_index = 1;
        next_block_entry_index = 2;
        previous_block_entry_index = 2;
        directory_index = 2;
      }
      ∷ [];
  allocation = 0xFFFF ∷ 0 ∷ [];
  manifest = record {
    header = record {
      item_count = 3;
      file_count = 1;
      name_size = 4;
      info1_count = 0;
      copy_count = 0;
      local_count = 0;
    };
    entries = root_entry ∷ entry_a ∷ entry_b ∷ [];
    file_names = 0x41 ∷ 0 ∷ 0x42 ∷ 0 ∷ [];
    copy_entries = [];
    local_entries = [];
    map_entries = 0 ∷ 0 ∷ 0 ∷ [];
  };
  checksums = record { map_entries = []; entries = [] };
  sectors = record {
    cache_version = 1;
    sector_count = 2;
    physical_sector_size = 4;
    first_sector_offset = 2;
    sectors_used = 2;
  };
}

abbrev info_b : FileInfo
info_b = record {
  flags = 5;
  sectors = 1 ∷ 0 ∷ [];
  sector_total = 2;
  is_fragmented = true;
  is_local_copy_made = false;
  is_local_copy_has_priority = false;
}

abbrev name_ab : List ℕ
name_ab = 0x5C ∷ 0x70 ∷ 0x5C ∷ 0x61 ∷ 0x5C ∷ 0x62 ∷ []

abbrev name_a : List ℕ
name_a = 0x5C ∷ 0x70 ∷ 0x5C ∷ 0x61 ∷ []

abbrev item_b : CacheItem
item_b = record {
  name = some (0x62 ∷ []);
  full_name = name_ab;
  size = 7;
  type_of = 0x4000;
  parent_index = 0;
  next_index = 0;
  first_index = 0;
  info = some info_b;
}

abbrev item_a : CacheItem
item_a = record item_b {
  name = some (0x61 ∷ []);
  full_name = name_a;
  size = 1;
  type_of = 0;
  info = none;
}

abbrev bytes_ab : Memory
bytes_ab i = 10 + i

abbrev mounted_ab : MountedCache
mounted_ab = record {
  name = 0x63 ∷ [];
  bytes = bytes_ab;
  byte_count = 10;
  cache = cache_ab;
  items = (1, item_a) ∷ (2, item_b) ∷ [];
}

abbrev located_a : Located
located_a = record { cache = 0; full_name = name_a; index = 1 }

abbrev located_b : Located
located_b = record { cache = 0; full_name = name_ab; index = 2 }

abbrev manager_ab : Manager
manager_ab = record {
  next_address = 1;
  caches = (0, mounted_ab) ∷ [];
  directories = record { table = located_a ∷ located_b ∷ []; hash = located_b ∷ located_a ∷ [] };
}

abbrev small_platform : Platform
small_platform = record {
  to_lower = lower;
  file_name = λ name. name;
  in_cache = λ name. some name;
  open_cache = λ name. none;
  rounds = 3;
  depth = 4;
}

-- A disk with the file `d`, which cannot be read, and room to write.
abbrev small_os : Os
small_os = record {
  World = List (List ℕ);
  platform = small_platform;
  fopen = λ name mode w. (if same_text mode (0x77 ∷ 0x62 ∷ []) then some 9 else none, w);
  tmpfile = λ w. (none, w);
  fread = λ file size count w. (([], 0), w);
  feof = λ file w. true;
  fwrite = λ file bytes size count w. (count, bytes ∷ w);
  fgetc = λ file w. (minus_one, w);
  fputc = λ file c w. (c, w);
  vfprintf = λ file text w. (pos 0, w);
  fseek = λ file offset method w. (pos 0, w);
  ftell = λ file w. pos 0;
  fflush = λ file w. (pos 0, w);
  setvbuf = λ file mode size w. (pos 0, w);
  fclose = λ file w. (pos 0, w);
  stat = λ name w.
      if same_text name (0x64 ∷ [])
      then some (record {
        mode = 0x81A4;
        size = 3;
        access_time = 1;
        modification_time = 2;
        status_time = 3;
      })
      else none;
  list_directory = λ name w. none;
  scan_directory = λ name w. (0x64 ∷ []) ∷ (0x65 ∷ []) ∷ [];
  mkdir = λ name w. w;
  fresh_memory = λ n. [];
  current_directory = λ w. [];
  absolute_path = λ name w. name;
  extract_path = λ name. [];
  compose = λ dir name. name;
  same_ignoring_case = same_text;
  fnmatch = λ mask name. true;
}

abbrev small_system : FileSystem small_os
small_system = record {
  last_handle = 4;
  files = [];
  finds = [];
  manager = manager_ab;
  is_started = true;
  has_caches = true;
  world = [];
}
