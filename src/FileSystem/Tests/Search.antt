-- ===== src/FileSystem/Tests/Search.antt =====
-- The theorem on searches, on one file of the disk and two items of a cache.
use revive_emu.Base.{ℕ, List, [], ◌∷◌, ◌++◌, ◌≡◌, refl, arith}
use revive_emu.Base.Lists.{keep}
use revive_emu.Base.Text.{same_text}
use revive_emu.Cache.Outcome.{done, ◌>>=◌}
use revive_emu.Cache.Directory.{has_wildcard, usable}
use revive_emu.Cache.Mask.{is_matching}
use revive_emu.FileSystem.{all_places}
use revive_emu.FileSystem.Search.{find_file_select}
use revive_emu.FileSystem.Search.Steps.{elements_of}
use revive_emu.FileSystem.Search.Run.{search}
use revive_emu.FileSystem.Search.Whole.{search_lem, local_for}
use revive_emu.FileSystem.Tests.{located_a, located_b, manager_ab, small_system}

-- `"\*"` on the disk and in the caches.
abbrev any_below : List ℕ
any_below = 0x5C ∷ 0x2A ∷ []

search_lem_example : search 10 any_below all_places small_system ≡ (
    elements_of manager_ab
      (keep (λ e. is_matching e.full_name any_below) (located_a ∷ located_b ∷ []))
    >>= λ remote. done (local_for any_below small_system ++ remote))
unfolding has_wildcard usable find_file_select same_text
search_lem_example =
    search_lem 10 any_below any_below small_system refl refl refl refl (omega arith)
