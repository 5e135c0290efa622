-- ===== src/FileSystem/Tests/Caches.antt =====
-- The theorems on the making of the directory tables and on mounts, on small caches.
use revive_emu.Base.{ℕ, Option, some, List, [], ◌∷◌, ◌==◌, if◌then◌else◌, ◌≡◌, refl, arith}
use revive_emu.Base.Bytes.{Memory}
use revive_emu.Base.Map.{find, insert}
use revive_emu.Base.Read.{read_bytes, read_le}
use revive_emu.Base.Text.{same_text}
use revive_emu.Cache.Outcome.{Outcome, done}
use revive_emu.Cache.Layout.{
  read_cache, read_header, read_manifest, read_array, read_manifest_header, read_allocation,
  read_blocks, read_manifest_entry, read_checksums, read_sectors_header, read_block_entry,
}
use revive_emu.Cache.Chain.{
  build_file_info, file_sectors, follow_blocks, follow_sectors, sector_round, write_sector, is_jump,
  end_mark, sectors_needed, is_listed,
}
use revive_emu.Cache.Names.{
  read_directory, root_item, has_prefix, entry_name, entry_text, new_item, read,
  build_directory_table, entry_path, extra_mount,
}
use revive_emu.Cache.Names.Tree.{
  Forest, nothing, directory, file, IsLinked, IsLowering, IsMountPath, items_below, insert_all,
  mounted_at, read_directory_lem,
}
use revive_emu.Cache.Mount.{Platform, Manager, mount_cache, add_cache, is_mounted, item_names}
use revive_emu.Cache.Mount.Backed.{IsBackedBy, IsBacked, mount_cache-IsBacked}
use revive_emu.FileSystem.Tests.{
  lower, root_entry, entry_a, entry_b, cache_ab, info_b, item_b, item_a, mounted_ab, located_a,
  located_b, manager_ab, small_platform,
}

abbrev forest_ab : Forest
forest_ab = directory 1 entry_a (0x41 ∷ []) (file 2 entry_b (0x42 ∷ []) info_b nothing) nothing

abbrev platform_path : List ℕ
platform_path = 0x70 ∷ []

lower-IsLowering : IsLowering lower
lower-IsLowering = record { twice = λ c. ground arith; keeps_backslash = refl }

path-IsMountPath : IsMountPath lower platform_path
unfolding has_prefix
path-IsMountPath = record { is_lower = refl; is_relative = refl }

forest-IsLinked : IsLinked 3 cache_ab 1 forest_ab
unfolding IsLinked entry_name entry_text build_file_info file_sectors follow_blocks follow_sectors
    sector_round write_sector is_jump end_mark sectors_needed is_listed
forest-IsLinked = (
  refl,
  ground arith,
  refl,
  refl,
  refl,
  (refl, ground arith, refl, refl, ground arith, refl, refl),
  refl,
)

read_directory_lem_example :
    read_directory lower 3 4 platform_path cache_ab
    ≡ done (
        insert_all
          ((0, root_item root_entry) ∷ items_below lower (mounted_at platform_path) forest_ab)
          [])
read_directory_lem_example =
    read_directory_lem lower 3 4 platform_path cache_ab root_entry forest_ab lower-IsLowering
      path-IsMountPath refl forest-IsLinked (omega arith)

-- A cache file with the directory `a` and nothing in it.
abbrev sparse : Memory
sparse i =
    if i == 4
    then 1
    else (if i == 104
        then 2
        else (if i == 120
            then 4
            else (if i == 172 then 1 else (if i == 180 then 5 else (if i == 204 then 97 else 0)))))

abbrev one_platform : Platform
one_platform = record small_platform { open_cache = λ name. some (sparse, 1000) }

abbrev manager_in : Manager → Outcome (Manager × Option ℕ) → Manager
manager_in m (done (m', r)) = m'
manager_in m _ = m

abbrev mounted : Manager
mounted = manager_in manager_ab (mount_cache one_platform (0x65 ∷ []) [] manager_ab)

ab-IsBacked : IsBacked manager_ab
unfolding find
ab-IsBacked = record {
  hash = (ab_b, (ab_a, tt));
  table = (ab_a, (ab_b, tt));
  below = (omega arith, tt);
}
  where
    ab_a : IsBackedBy manager_ab.caches located_a
    ab_a = record {
      cache = mounted_ab;
      item = item_a;
      cache_found = refl;
      item_found = refl;
      same_name = refl;
    }

    ab_b : IsBackedBy manager_ab.caches located_b
    ab_b = record {
      cache = mounted_ab;
      item = item_b;
      cache_found = refl;
      item_found = refl;
      same_name = refl;
    }

mount_cache-IsBacked_example : IsBacked mounted
unfolding mount_cache is_mounted same_text add_cache read read_cache read_header read_le
    read_directory read_manifest read_array read_manifest_header read_allocation read_blocks
    build_directory_table read_manifest_entry entry_name entry_text item_names find insert
    read_bytes read_checksums read_sectors_header read_block_entry root_item new_item entry_path
    extra_mount
mount_cache-IsBacked_example =
    mount_cache-IsBacked one_platform (0x65 ∷ []) [] manager_ab mounted (some 1) refl ab-IsBacked
