-- ===== src/Cache/Stream/Open.antt =====
-- A file found along its chains, opened, and read behind a seek.
use revive_emu.Base.{ℕ, ◌+◌, ◌-◌, ◌*◌, ◌≤◌, ◌<◌, true, some, List, ◌≡◌, refl, arith}
use revive_emu.Base.Bytes.{Memory, u32_mod}
use revive_emu.Base.Lists.{length, All}
use revive_emu.Base.Read.{read_bytes}
use revive_emu.Cache.Outcome.{done}
use revive_emu.Cache.Layout.{Cache}
use revive_emu.Cache.Chain.{sectors_needed, FileInfo, build_file_info}
use revive_emu.Cache.Chain.Build.{FileChain, build_file_info_chain, sectors_needed-cover}
use revive_emu.Cache.Stream.{min, total_of, open_file, read_file, seek_file, pos, set}
use revive_emu.Cache.Stream.Slice.{IsWhole, content}
use revive_emu.Cache.Stream.Seek.{read_file-seek_file}

open_file-IsWhole :
    (bytes : Memory) (byte_count : ℕ) (c : Cache) (info : FileInfo) (size : ℕ)
    → 0 < c.sectors.physical_sector_size
    → size + c.sectors.physical_sector_size ≤ u32_mod
    → length info.sectors ≡ sectors_needed size c.sectors.physical_sector_size
    → All
        (λ s.
          c.sectors.first_sector_offset
            + s * c.sectors.physical_sector_size
            + c.sectors.physical_sector_size
          ≤ byte_count)
        info.sectors
    → IsWhole (open_file bytes byte_count c info size true)
unfolding IsWhole open_file
open_file-IsWhole bytes byte_count c info size p h e inside =
    (p, h, rw e (sectors_needed-cover size c.sectors.physical_sector_size p), inside)

open_file-is_binary :
    (bytes : Memory) (byte_count : ℕ) (c : Cache) (info : FileInfo) (size : ℕ)
    → (open_file bytes byte_count c info size true).is_binary ≡ true
unfolding open_file
open_file-is_binary bytes byte_count c info size = refl

open_file-size :
    (bytes : Memory) (byte_count : ℕ) (c : Cache) (info : FileInfo) (size : ℕ)
    → (open_file bytes byte_count c info size true).size ≡ size
unfolding open_file
open_file-size bytes byte_count c info size = refl

-- For an item of a cache whose chain of blocks and sectors ends, has exactly the sectors that the
-- item's size needs, each of them in the cache's file, with a sector size that is not 0 and room
-- for a sector under 2 ^ 32, `BuildFileInfo` returns with fuel for one round more than there are
-- blocks and than there are sectors, and it finds the sectors of the chain in order. A read of the
-- file opened with them in binary mode, after a seek to any position below 2 ^ 31, returns: it
-- gives the bytes that the sectors hold in that order from that position on, as many as asked for
-- or as the item has left, and moves the position behind them.
pub read_file-build_file_info :
    (bytes : Memory) (byte_count fuel : ℕ) (c : Cache) (item n : ℕ) (ss : List ℕ)
    (chain : FileChain c item n ss) (offset size count : ℕ)
    → 0 < c.sectors.physical_sector_size
    → chain.entry.item_size + c.sectors.physical_sector_size ≤ u32_mod
    → length ss ≡ sectors_needed chain.entry.item_size c.sectors.physical_sector_size
    → All
        (λ s.
          c.sectors.first_sector_offset
            + s * c.sectors.physical_sector_size
            + c.sectors.physical_sector_size
          ≤ byte_count)
        ss
    → n < fuel
    → length ss < fuel
    → offset < 0x80000000
    → (info : FileInfo) × (build_file_info fuel c item ≡ done info)
      × (info.sectors ≡ ss)
      × (let f = open_file bytes byte_count c info chain.entry.item_size true in
          let k = min (total_of size count) (f.size - offset) in
          (f.size ≡ chain.entry.item_size)
          × (read_file (some (seek_file f (pos offset) set).0) size count
              ≡ done (read_bytes (content f) offset k, some (record f { position = offset + k }))))
read_file-build_file_info bytes byte_count fuel c item n ss chain offset size count p h e inside k r
      l =
    let (b, same) = build_file_info_chain fuel c item n ss chain p (omega arith) k r in
    let whole = open_file-IsWhole bytes byte_count c _ chain.entry.item_size p h e inside in
    (
      _,
      same,
      refl,
      (
        open_file-size bytes byte_count c _ chain.entry.item_size,
        read_file-seek_file _ offset size count whole
            (open_file-is_binary bytes byte_count c _ chain.entry.item_size) l,
      ),
    )
