-- ===== src/FileSystem/Depots/Tests.antt =====
-- Runs and a witness on an application that depends on another, with a localization depot.
use revive_emu.Base.{ℕ, ◌-◌, some, List, [], ◌∷◌, ◌++◌, ◌≡◌, refl, arith}
use revive_emu.Base.Map.{find, insert}
use revive_emu.Base.Text.{same_text}
use revive_emu.Cache.Outcome.{done}
use revive_emu.FileSystem.Depots.{
  Library, App, AppFilesystem, dependant_on_app, host_os, get_app_record, os_tokens,
  parse_app_dependencies,
}
use revive_emu.FileSystem.Depots.Chain.{
  IsChain, last, linked, all_language_depots, parse_app_dependencies_lem,
}
use revive_emu.FileSystem.Depots.Described.{optional_depots, filesystem_depots}

-- `atoi` of one digit.
abbrev digit : List ℕ → ℕ
digit [] = 0
digit (c ∷ cs) = c - 0x30

abbrev small_library : Library
small_library = record {
  same_ignoring_case = same_text;
  atoi = digit;
  cache_path = λ name. name;
  language = 0x72 ∷ [];
}

abbrev app_of : ℕ → ℕ → List AppFilesystem → List (List ℕ × List ℕ) → App
app_of id name filesystems user_defined = record {
  app_id = id;
  name = name ∷ [];
  install_dir_name = name ∷ [];
  filesystems = filesystems;
  user_defined = user_defined;
}

-- For `linux` and for `x`.
abbrev for_linux : AppFilesystem
for_linux = record {
  app_id = 7;
  mount_name = 0x70 ∷ [];
  valid_os_list = some (0x78 ∷ 0x2C ∷ host_os);
}

abbrev for_other : AppFilesystem
for_other = record { app_id = 8; mount_name = []; valid_os_list = some (0x78 ∷ []) }

abbrev game : App
game = app_of 1 0x67 (for_other ∷ for_linux ∷ []) ((dependant_on_app, 0x32 ∷ []) ∷ [])

abbrev base_game : App
base_game = app_of 2 0x62 [] []

abbrev all_apps : List App
all_apps = game ∷ base_game ∷ record base_game { app_id = 5; name = 0x67 ∷ 0x20 ∷ 0x72 ∷ [] } ∷ []

os_tokens_run :
    os_tokens [] (0x2C ∷ 0x78 ∷ 0x2C ∷ 0x2C ∷ 0x79 ∷ []) ≡ (0x78 ∷ []) ∷ (0x79 ∷ []) ∷ []
unfolding os_tokens
os_tokens_run = refl

game-IsChain : IsChain small_library all_apps 1 (game ∷ base_game ∷ [])
unfolding same_text
game-IsChain = linked game (0x32 ∷ []) (base_game ∷ []) refl refl (last base_game refl refl)

parse_app_dependencies_lem_example :
    let depots =
      optional_depots small_library game
      ++ (all_language_depots small_library all_apps (game ∷ base_game ∷ [])
          ++ filesystem_depots small_library (for_other ∷ for_linux ∷ [])) in
    let known' = insert 1 depots [] in
    (parse_app_dependencies small_library all_apps 3 1 [] ≡ done known')
    × (parse_app_dependencies small_library all_apps 3 1 known' ≡ done known')
unfolding find get_app_record
parse_app_dependencies_lem_example =
    parse_app_dependencies_lem small_library all_apps (game ∷ base_game ∷ []) 3 1 [] game for_other
      (for_linux ∷ []) refl refl refl game-IsChain (omega arith)
