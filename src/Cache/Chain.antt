-- ===== src/Cache/Chain.antt =====
-- `CCache::BuildFileInfo` (Steam/steam/CacheSystem/Cache/CCache.h): the sectors of a file in order,
-- found along the chain of its blocks and, in each block, along the chain of the allocation table.
-- The fuel of both loops is given by the caller, since a chain that leads back to itself keeps the
-- program in its loop. Neither loop tests the place that it writes to: once more sectors were written
-- than the array has places, what the program does is undefined, and `file_sectors` is a fault.
pub mod Walk
pub mod Build
use revive_emu.Base.{
  ℕ, zero, suc, ◌+◌, ◌-◌, ◌/◌, ◌%◌, Bool, true, false, not, ◌&&◌, ◌||◌, Option, none, some, List,
  [], ◌∷◌, ◌++◌, ◌==◌, ltb, leb, if◌then◌else◌,
}
use revive_emu.Base.Bytes.{u32_mod}
use revive_emu.Base.Lists.{length, get_elem?}
use revive_emu.Cache.Outcome.{Outcome, done, fault, out_of_fuel, found, ◌>>=◌}
use revive_emu.Cache.Layout.{Cache, BlockEntry, ManifestEntry}

-- The local `minusone`, which ends a chain of sectors.
unfoldable pub end_mark : ℕ → ℕ
end_mark sector_count = if leb 0xFFFF sector_count then 0xFFFFFFFF else 0xFFFF

-- `numofsectors`
unfoldable pub sectors_needed : ℕ → ℕ → ℕ
sectors_needed size sector_size =
    if size % sector_size == 0 then size / sector_size else size / sector_size + 1

-- Whether a link is to another place than the next: the difference of unsigned numbers is not 1.
unfoldable pub is_jump : ℕ → ℕ → ℕ → Bool
is_jump mark sector next = not (next == mark) && not ((next + u32_mod - sector) % u32_mod == 1)

-- `Sectors[sectorindexptr++] = sectorindex`, with no test of the place; `out` is what was written.
unfoldable pub write_sector : ℕ → List ℕ → List ℕ
write_sector sector out = out ++ sector ∷ []

-- One round of the inner loop: the next sector, and the array and flag after it.
unfoldable pub sector_round : ℕ → List ℕ → ℕ → List ℕ → Bool → Outcome (ℕ × List ℕ × Bool)
sector_round mark allocation sector out fragmented = found (get_elem? allocation sector) >>= λ next.
    done (next, write_sector sector out, fragmented || is_jump mark sector next)

-- The inner loop.
unfoldable pub follow_sectors : ℕ → ℕ → List ℕ → ℕ → List ℕ → Bool → Outcome (List ℕ × Bool)
follow_sectors zero mark allocation sector out fragmented = out_of_fuel
follow_sectors (suc fuel) mark allocation sector out fragmented =
    if sector == mark
    then done (out, fragmented)
    else (sector_round mark allocation sector out fragmented >>= λ (next, out', fragmented').
        follow_sectors fuel mark allocation next out' fragmented')

-- The outer loop.
unfoldable pub follow_blocks :
    ℕ → ℕ → ℕ → ℕ → List BlockEntry → List ℕ → ℕ → List ℕ → Bool → Outcome (List ℕ × Bool)
follow_blocks zero rounds mark sector_count blocks allocation block out fragmented = out_of_fuel
follow_blocks (suc fuel) rounds mark sector_count blocks allocation block out fragmented =
    if block == sector_count
    then done (out, fragmented)
    else (found (get_elem? blocks block) >>= λ entry.
        follow_sectors rounds mark allocation entry.first_data_block_index out
          (fragmented || not (entry.next_block_entry_index == sector_count))
        >>= λ (out', fragmented').
            follow_blocks fuel rounds mark sector_count blocks allocation
              entry.next_block_entry_index out' fragmented')

-- The fields of a directory entry that `BuildFileInfo` sets.
pub record FileInfo : Type 0 where
  pub flags : ℕ
  pub sectors : List ℕ
  pub sector_total : ℕ
  pub is_fragmented : Bool
  pub is_local_copy_made : Bool
  pub is_local_copy_has_priority : Bool

-- `IsLocalCopyMade` and `IsLocalCopyHasPriorityOverChache`: the loops over the two tables.
unfoldable pub is_listed : ℕ → List ℕ → Bool
is_listed item [] = false
is_listed item (i ∷ is) = let rest = is_listed item is in if i == item then true else rest

-- The loops, on an array of `room` places.
unfoldable pub file_sectors : ℕ → Cache → ℕ → ℕ → Outcome (List ℕ × Bool)
file_sectors fuel c block room =
    if room == 0
    then done ([], false)
    else (follow_blocks fuel fuel (end_mark c.sectors.sector_count) c.sectors.sector_count c.blocks
          c.allocation block [] false
        >>= λ (out, fragmented). if leb (length out) room then done (out, fragmented) else fault)

-- `BuildFileInfo`
unfoldable pub build_file_info : ℕ → Cache → ℕ → Outcome FileInfo
build_file_info fuel c item = found (get_elem? c.manifest.map_entries item) >>= λ block.
    found (get_elem? c.manifest.entries item) >>= λ (entry : ManifestEntry).
    found (get_elem? c.blocks block) >>= λ (first : BlockEntry).
    if c.sectors.physical_sector_size == 0
    then fault
    else (let room = sectors_needed entry.item_size c.sectors.physical_sector_size in
        file_sectors fuel c block room >>= λ (sectors, fragmented). done (record {
          flags = first.entry_type;
          sectors = sectors;
          sector_total = room;
          is_fragmented = fragmented;
          is_local_copy_made = is_listed item c.manifest.copy_entries;
          is_local_copy_has_priority = is_listed item c.manifest.local_entries;
        }))
