-- ===== src/Cache/Layout.antt =====
-- Steam/steam/CacheSystem/CacheSystemCommon.h and the `Read` functions of Steam/steam/CacheSystem/
-- Cache: how a cache file is laid out, and how it is read in one pass. The structures are runs of
-- 32-bit words; a record here holds the words that the program reads again. What lies behind the end
-- of the file stands for the memory that `fread` then leaves as `new` gave it.
use revive_emu.Base.{ℕ, zero, suc, ◌+◌, ◌*◌, Option, none, some, List, [], ◌∷◌, ◌==◌, if◌then◌else◌}
use revive_emu.Base.Bytes.{Memory}
use revive_emu.Base.Read.{read_le, read_bytes}

-- ESteamCacheFileType
abbrev pub gcf : ℕ
gcf = 1

-- TCacheHeader
pub record CacheHeader : Type 0 where
  pub file_type : ℕ
  pub cache_file_version : ℕ
  pub cache_id : ℕ
  pub cache_version : ℕ
  pub file_size : ℕ
  pub physical_sector_size : ℕ
  pub sector_count : ℕ

-- TCacheBlockEntry
pub record BlockEntry : Type 0 where
  pub entry_type : ℕ
  pub file_data_offset : ℕ
  pub file_data_size : ℕ
  pub first_data_block_index : ℕ
  pub next_block_entry_index : ℕ
  pub previous_block_entry_index : ℕ
  pub directory_index : ℕ

-- TCacheManifestHeader
pub record ManifestHeader : Type 0 where
  pub item_count : ℕ
  pub file_count : ℕ
  pub name_size : ℕ
  pub info1_count : ℕ
  pub copy_count : ℕ
  pub local_count : ℕ

-- TCacheManifestEntry
pub record ManifestEntry : Type 0 where
  pub name_offset : ℕ
  pub item_size : ℕ
  pub checksum_index : ℕ
  pub type_of : ℕ
  pub parent_index : ℕ
  pub next_index : ℕ
  pub first_index : ℕ

-- TCacheSectorsHeader
pub record SectorsHeader : Type 0 where
  pub cache_version : ℕ
  pub sector_count : ℕ
  pub physical_sector_size : ℕ
  pub first_sector_offset : ℕ
  pub sectors_used : ℕ

-- CCacheManifest
pub record Manifest : Type 0 where
  pub header : ManifestHeader
  pub entries : List ManifestEntry
  pub file_names : List ℕ
  pub copy_entries : List ℕ
  pub local_entries : List ℕ
  pub map_entries : List ℕ

-- CCacheChecksumTable: an item's count and first index, and the checksums.
pub record ChecksumTable : Type 0 where
  pub map_entries : List (ℕ × ℕ)
  pub entries : List ℕ

-- CCache, of a file of type GCF.
pub record Cache : Type 0 where
  pub header : CacheHeader
  pub blocks : List BlockEntry
  pub allocation : List ℕ
  pub manifest : Manifest
  pub checksums : ChecksumTable
  pub sectors : SectorsHeader

-- The word number `n` of a structure at `i`.
abbrev pub word : Memory → ℕ → ℕ → ℕ
word p i n = read_le 4 p (i + 4 * n)

-- The loop that reads `n` structures of `size` bytes each.
unfoldable pub read_array {ℓ} : {A : Type ℓ} → (Memory → ℕ → A) → ℕ → ℕ → Memory → ℕ → List A
read_array read size zero p i = []
read_array read size (suc n) p i = read p i ∷ read_array read size n p (i + size)

unfoldable pub read_header : Memory → ℕ → CacheHeader
read_header p i = record {
  file_type = word p i 1;
  cache_file_version = word p i 2;
  cache_id = word p i 3;
  cache_version = word p i 4;
  file_size = word p i 7;
  physical_sector_size = word p i 8;
  sector_count = word p i 9;
}

unfoldable pub read_block_entry : Memory → ℕ → BlockEntry
read_block_entry p i = record {
  entry_type = word p i 0;
  file_data_offset = word p i 1;
  file_data_size = word p i 2;
  first_data_block_index = word p i 3;
  next_block_entry_index = word p i 4;
  previous_block_entry_index = word p i 5;
  directory_index = word p i 6;
}

unfoldable pub read_manifest_header : Memory → ℕ → ManifestHeader
read_manifest_header p i = record {
  item_count = word p i 3;
  file_count = word p i 4;
  name_size = word p i 7;
  info1_count = word p i 8;
  copy_count = word p i 9;
  local_count = word p i 10;
}

unfoldable pub read_manifest_entry : Memory → ℕ → ManifestEntry
read_manifest_entry p i = record {
  name_offset = word p i 0;
  item_size = word p i 1;
  checksum_index = word p i 2;
  type_of = word p i 3;
  parent_index = word p i 4;
  next_index = word p i 5;
  first_index = word p i 6;
}

unfoldable pub read_sectors_header : Memory → ℕ → SectorsHeader
read_sectors_header p i = record {
  cache_version = word p i 0;
  sector_count = word p i 1;
  physical_sector_size = word p i 2;
  first_sector_offset = word p i 3;
  sectors_used = word p i 4;
}

abbrev pub read_word : Memory → ℕ → ℕ
read_word p i = read_le 4 p i

-- `CCacheBlock::Read` from offset `i`: the entries, and the offset behind them.
unfoldable pub read_blocks : Memory → ℕ → List BlockEntry × ℕ
read_blocks p i =
    let count = word p i 0 in (read_array read_block_entry 28 count p (i + 32), i + 32 + 28 * count)

-- `CCacheAllocationTable::Read`, whose count is that of the cache's own header.
unfoldable pub read_allocation : ℕ → Memory → ℕ → List ℕ × ℕ
read_allocation count p i = (read_array read_word 4 count p (i + 16), i + 16 + 4 * count)

-- `CCacheManifest::Read`
unfoldable pub read_manifest : Memory → ℕ → Manifest × ℕ
read_manifest p i =
    let header = read_manifest_header p i in
    let names = i + 56 + 28 * header.item_count in
    let copies = names + header.name_size + 4 * header.info1_count + 4 * header.item_count in
    let locals = copies + 4 * header.copy_count in
    let maps = locals + 4 * header.local_count + 8 in
    (
      record {
        header = header;
        entries = read_array read_manifest_entry 28 header.item_count p (i + 56);
        file_names = read_bytes p names header.name_size;
        copy_entries = read_array read_word 4 header.copy_count p copies;
        local_entries = read_array read_word 4 header.local_count p locals;
        map_entries = read_array read_word 4 header.item_count p maps;
      },
      maps + 4 * header.item_count,
    )

abbrev read_checksum_map : Memory → ℕ → ℕ × ℕ
read_checksum_map p i = (word p i 0, word p i 1)

-- `CCacheChecksumTable::Read`
unfoldable pub read_checksums : Memory → ℕ → ChecksumTable × ℕ
read_checksums p i =
    let items = word p i 4 in
    let count = word p i 5 + 0x20 in
    (
      record {
        map_entries = read_array read_checksum_map 8 items p (i + 24);
        entries = read_array read_word 4 count p (i + 24 + 8 * items);
      },
      i + 24 + 8 * items + 4 * count,
    )

-- The part of `CCache::Read` that reads the file. For a type other than GCF the sectors' header,
-- which the code goes on to read, was never set: `none`.
unfoldable pub read_cache : Memory → Option Cache
read_cache p =
    let header = read_header p 0 in
    let (blocks, i1) = read_blocks p 44 in
    let (allocation, i2) = read_allocation header.sector_count p i1 in
    let (manifest, i3) = read_manifest p i2 in
    let (checksums, i4) = read_checksums p i3 in
    if header.file_type == gcf
    then some (record {
      header = header;
      blocks = blocks;
      allocation = allocation;
      manifest = manifest;
      checksums = checksums;
      sectors = read_sectors_header p i4;
    })
    else none
