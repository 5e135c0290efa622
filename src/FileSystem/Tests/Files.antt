-- ===== src/FileSystem/Tests/Files.antt =====
-- The theorems on open files, on the file of 7 bytes.
use revive_emu.Base.{ℕ, ◌≤◌, true, List, [], ◌∷◌, ◌≡◌, refl, arith}
use revive_emu.Base.Lists.{length, All}
use revive_emu.Base.Map.{find}
use revive_emu.Base.Read.{read_bytes}
use revive_emu.Base.Text.{same_text}
use revive_emu.Cache.Outcome.{done}
use revive_emu.Cache.Stream.Slice.{IsWhole, content}
use revive_emu.FileSystem.{
  FileSystem, stream_at, item_at, item_of_file, has_b, sectors_of, set_file,
}
use revive_emu.FileSystem.Session.{fresh_entry}
use revive_emu.FileSystem.Extract.{
  buffer_size, cache_extract_file, open_target, write_all, create_dir_hierarchy, directories_of,
}
use revive_emu.FileSystem.Extract.Copy.{joined, cache_extract_file_lem}
use revive_emu.FileSystem.Tests.{item_b, mounted_ab, located_b, small_os, small_system}

-- `"rb"`
abbrev rb : List ℕ
rb = 0x72 ∷ 0x62 ∷ []

ab-IsWhole : IsWhole (stream_at (fresh_entry located_b rb) mounted_ab item_b)
unfolding IsWhole stream_at sectors_of
ab-IsWhole = (omega arith, omega arith, omega arith, (omega arith, (omega arith, tt)))

abbrev open_system : FileSystem small_os
open_system = record small_system { files = (4, fresh_entry located_b rb) ∷ [] }

cache_extract_file_lem_example :
    (pieces : List (List ℕ)) × (cache_extract_file 4 (fresh_entry located_b rb) open_system
      ≡ done (
        true,
        set_file 4
            (record (fresh_entry located_b rb) { position = 7 })
            (record open_system { world = (small_os.fclose 9 (write_all small_os 9 pieces [])).1 }),
      ))
    × (joined pieces
        ≡ read_bytes (content (stream_at (fresh_entry located_b rb) mounted_ab item_b)) 0 7)
    × All (λ piece. length piece ≤ buffer_size) pieces
unfolding item_of_file item_at find open_target create_dir_hierarchy directories_of same_text
    stream_at has_b
cache_extract_file_lem_example =
    cache_extract_file_lem 4 (fresh_entry located_b rb) mounted_ab item_b 9 [] open_system refl refl
      ab-IsWhole refl refl
