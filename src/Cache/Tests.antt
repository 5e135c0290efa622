-- ===== src/Cache/Tests.antt =====
-- Runs on a cache of two sectors of 4 bytes that stand in the file in the other order.
use revive_emu.Base.{
  ℕ, ◌+◌, ◌-◌, ◌≤◌, true, false, ◌||◌, Option, some, List, [], ◌∷◌, ◌≡◌, refl, arith,
}
use revive_emu.Base.Bytes.{Memory}
use revive_emu.Base.Lists.{length, keep}
use revive_emu.Base.Read.{read_bytes}
use revive_emu.Cache.Outcome.{done}
use revive_emu.Cache.Stream.{
  Stream, min, total_of, open_file, read_binary, read_text, read_file, seek_file, seek_word,
  unsigned_of, is_negative, long_leb, pos, negsuc, set, cur, end, binary_loop, binary_read_sector,
  read_at, clip, advance, wanted, text_loop, text_read_sector, text_round, take_text,
  available_from,
}
use revive_emu.Cache.Layout.{Cache, BlockEntry}
use revive_emu.Cache.Chain.{end_mark, sectors_needed, FileInfo, build_file_info}
use revive_emu.Cache.Chain.Walk.{ended, linked, last, then_block}
use revive_emu.Cache.Chain.Build.{FileChain}
use revive_emu.Cache.Stream.Seek.{seek_refused}
use revive_emu.Cache.Stream.Signed.{target, landed, seek_file-target}
use revive_emu.Cache.Stream.Open.{read_file-build_file_info}
use revive_emu.Base.Text.{same_text}
use revive_emu.Cache.Mask.{star, dot, skip, is_matching}
use revive_emu.Cache.Mask.Star.{is_plain, is_below, is_matching_prefix}
use revive_emu.Cache.Directory.{
  Located, Directories, lookup, add_name, add_names, text_less, insert_sorted, sort,
  build_global_directory_table, has_wildcard, usable, cache_find_file,
}
use revive_emu.Cache.Directory.Order.{IsOrdered}
use revive_emu.Cache.Directory.Mounted.{
  IsAgreed, or_else, first_named, build_global_directory_table-IsAgreed,
}
use revive_emu.Cache.Directory.Finding.{cache_find_file-build_global_directory_table}
use revive_emu.Cache.Directory.Listing.{listing, listing_lem}
use revive_emu.Cache.Stream.Slice.{IsWhole, content, slice, moved}
use revive_emu.Cache.Stream.Text.{plain}
use revive_emu.Cache.Stream.Reading.{read_text_lem}

-- The byte at offset `i` is `10 + i`, so that the byte at 3 is a carriage return.
abbrev counting : Memory
counting i = 10 + i

abbrev two_sectors : Stream
two_sectors = record {
  bytes = counting;
  byte_count = 10;
  first_sector_offset = 2;
  physical_sector_size = 4;
  sectors = 1 ∷ 0 ∷ [];
  size = 7;
  position = 3;
  is_binary = true;
}

two_sectors-IsWhole : IsWhole two_sectors
unfolding IsWhole
two_sectors-IsWhole = (omega arith, omega arith, omega arith, (omega arith, (omega arith, tt)))

read_binary_run :
    read_binary two_sectors 1 3 ≡ done (19 ∷ 12 ∷ 13 ∷ [], record two_sectors { position = 6 })
unfolding read_binary binary_loop binary_read_sector read_at clip advance wanted total_of read_bytes
read_binary_run = refl

read_text_run :
    read_text two_sectors 1 3 ≡ done (19 ∷ 12 ∷ 14 ∷ [], record two_sectors { position = 7 })
unfolding read_text text_loop text_read_sector text_round take_text available_from read_at advance
    wanted total_of read_bytes
read_text_run = refl

read_text_lem_example :
    (k : ℕ) × (read_text two_sectors 1 3 ≡ done (plain (slice two_sectors k), moved two_sectors k))
    × (k ≤ 7 - 3)
    × (min (total_of 1 3) (7 - 3) ≤ k)
    × (length (plain (slice two_sectors k)) ≤ total_of 1 3)
read_text_lem_example = read_text_lem two_sectors 1 3 two_sectors-IsWhole

-- A cache with one block, whose sectors are 1 and then 0, and one file of 7 bytes.
abbrev one_block : BlockEntry
one_block = record {
  entry_type = 5;
  file_data_offset = 0;
  file_data_size = 7;
  first_data_block_index = 1;
  next_block_entry_index = 2;
  previous_block_entry_index = 2;
  directory_index = 0;
}

abbrev small_cache : Cache
small_cache = record {
  header = record {
    file_type = 1;
    cache_file_version = 1;
    cache_id = 7;
    cache_version = 1;
    file_size = 10;
    physical_sector_size = 4;
    sector_count = 2;
  };
  blocks = one_block ∷ [];
  allocation = 0xFFFF ∷ 0 ∷ [];
  manifest = record {
    header = record {
      item_count = 1;
      file_count = 1;
      name_size = 1;
      info1_count = 0;
      copy_count = 0;
      local_count = 1;
    };
    entries =
        record {
          name_offset = 0;
          item_size = 7;
          checksum_index = 0;
          type_of = 0x4000;
          parent_index = 0;
          next_index = 0;
          first_index = 0;
        }
        ∷ [];
    file_names = 0 ∷ [];
    copy_entries = [];
    local_entries = 0 ∷ [];
    map_entries = 0 ∷ [];
  };
  checksums = record { map_entries = []; entries = [] };
  sectors = record {
    cache_version = 1;
    sector_count = 2;
    physical_sector_size = 4;
    first_sector_offset = 2;
    sectors_used = 2;
  };
}

small_chain : FileChain small_cache 0 1 (1 ∷ 0 ∷ [])
unfolding end_mark
small_chain = record {
  block = 0;
  entry = _;
  first = one_block;
  block_found = refl;
  entry_found = refl;
  first_found = refl;
  chain =
      then_block one_block (1 ∷ 0 ∷ []) [] refl refl refl
        (linked refl refl (linked refl refl (ended refl))) (last refl);
}

read_file-build_file_info_example :
    (info : FileInfo) × (build_file_info 3 small_cache 0 ≡ done info)
    × (info.sectors ≡ 1 ∷ 0 ∷ [])
    × (let f = open_file counting 10 small_cache info small_chain.entry.item_size true in
        let k = min (total_of 1 3) (f.size - 3) in
        (f.size ≡ small_chain.entry.item_size)
        × (read_file (some (seek_file f (pos 3) set).0) 1 3
            ≡ done (read_bytes (content f) 3 k, some (record f { position = 3 + k }))))
unfolding sectors_needed small_chain
read_file-build_file_info_example =
    read_file-build_file_info counting 10 3 small_cache 0 1 (1 ∷ 0 ∷ []) small_chain 3 1 3
      (omega arith) (omega arith) refl (omega arith) (omega arith) (omega arith) (omega arith)

-- Seeks in a file of 10 bytes, from position 4: back by 3, back by 5, to 2 before the end, behind
-- it by 2, and to 2 ^ 31, which is negative as a `long`.
abbrev sought : ℕ → Stream
sought n = record {
  bytes = counting;
  byte_count = 10;
  first_sector_offset = 0;
  physical_sector_size = 5;
  sectors = 0 ∷ 1 ∷ [];
  size = 10;
  position = n;
  is_binary = true;
}

seek_back : seek_file (sought 4) (negsuc 2) cur ≡ (sought 1, true)
unfolding seek_file seek_word unsigned_of is_negative
seek_back = refl

seek_before_start : seek_file (sought 4) (negsuc 4) cur ≡ (sought 4, false)
unfolding seek_file seek_word unsigned_of is_negative
seek_before_start = refl

seek_from_end : seek_file (sought 4) (pos 2) end ≡ (sought 8, true)
unfolding seek_file seek_word unsigned_of long_leb
seek_from_end = refl

seek_behind_end : seek_file (sought 4) (negsuc 1) end ≡ (sought 12, true)
unfolding seek_file seek_word unsigned_of long_leb
seek_behind_end = refl

seek_file-target_example :
    seek_file (sought 4) (negsuc 2) cur ≡ landed (sought 4) (target 4 10 (negsuc 2) cur)
seek_file-target_example =
    seek_file-target (sought 4) (negsuc 2) cur (omega arith) (omega arith) (omega arith)

seek_too_far : seek_file (sought 4) (pos 0x80000000) set ≡ (sought 4, false)
seek_too_far = seek_refused (sought 4) 0x80000000 (omega arith) (omega arith)

-- "ab", "aab" and masks on them.
is_matching_run : is_matching (0x61 ∷ 0x61 ∷ 0x62 ∷ []) (0x61 ∷ star ∷ 0x62 ∷ []) ≡ true
unfolding is_matching skip
is_matching_run = refl

-- `*ab` against "aab": the byte behind `*` is found at its first place only.
is_matching_first : is_matching (0x61 ∷ 0x61 ∷ 0x62 ∷ []) (star ∷ 0x61 ∷ 0x62 ∷ []) ≡ false
unfolding is_matching skip
is_matching_first = refl

is_matching_prefix_example :
    is_matching (0x61 ∷ 0x62 ∷ []) (0x61 ∷ star ∷ [])
    ≡ is_below (0x61 ∷ 0x62 ∷ []) (0x61 ∷ []) || same_text (0x61 ∷ 0x62 ∷ dot ∷ []) (0x61 ∷ [])
unfolding is_plain
is_matching_prefix_example = is_matching_prefix (0x61 ∷ 0x62 ∷ []) (0x61 ∷ []) refl

-- "\b", "\ab", and names taken as they are.
abbrev name_b : List ℕ
name_b = 0x5C ∷ 0x62 ∷ []

abbrev name_ab : List ℕ
name_ab = 0x5C ∷ 0x61 ∷ 0x62 ∷ []

abbrev as_is : List ℕ → Option (List ℕ)
as_is name = some name

abbrev nothing_mounted : Directories
nothing_mounted = record { table = []; hash = [] }

nothing_mounted-IsAgreed : IsAgreed nothing_mounted
unfolding IsAgreed
nothing_mounted-IsAgreed name = refl

abbrev two_names : List (List ℕ)
two_names = name_b ∷ name_ab ∷ name_b ∷ []

abbrev item_of : ℕ → List ℕ → ℕ → Located
item_of cache name i = record { cache = cache; full_name = name; index = i }

mounted_run :
    (build_global_directory_table 7 two_names nothing_mounted).table
    ≡ item_of 7 name_ab 2 ∷ item_of 7 name_b 1 ∷ []
unfolding build_global_directory_table add_names add_name lookup sort insert_sorted text_less
    same_text
mounted_run = refl

build_global_directory_table-IsAgreed_example :
    IsAgreed (build_global_directory_table 7 two_names nothing_mounted)
    × IsOrdered (build_global_directory_table 7 two_names nothing_mounted).table
build_global_directory_table-IsAgreed_example =
    build_global_directory_table-IsAgreed 7 two_names nothing_mounted nothing_mounted-IsAgreed

cache_find_file-build_global_directory_table_example :
    cache_find_file as_is name_b (build_global_directory_table 7 two_names nothing_mounted)
    ≡ or_else (cache_find_file as_is name_b nothing_mounted) (first_named 7 1 two_names name_b)
unfolding usable has_wildcard
cache_find_file-build_global_directory_table_example =
    cache_find_file-build_global_directory_table as_is name_b name_b 7 two_names nothing_mounted
      refl refl

-- The pattern "\*b"
listing_lem_example :
    listing as_is
      (0x5C ∷ star ∷ 0x62 ∷ [])
      (build_global_directory_table 7 two_names nothing_mounted)
    ≡ keep
        (λ e. is_matching e.full_name (0x5C ∷ star ∷ 0x62 ∷ []))
        (build_global_directory_table 7 two_names nothing_mounted).table
unfolding usable has_wildcard
listing_lem_example =
    listing_lem as_is (0x5C ∷ star ∷ 0x62 ∷ []) (0x5C ∷ star ∷ 0x62 ∷ [])
      (build_global_directory_table 7 two_names nothing_mounted) refl refl
