-- ===== src/FileSystem/Files.antt =====
-- How files are opened (Steam/steam/SteamFilesystem.h), and `CacheOpenFileEx`
-- (Steam/steam/CacheSystem/CCacheSystem.h). A mode has less than 8 characters.
use revive_emu.Base.{
  ℕ, Bool, true, false, ◌||◌, Option, none, some, List, [], ◌∷◌, ◌==◌, if◌then◌else◌,
}
use revive_emu.Cache.Outcome.{Outcome, done, ◌>>=◌}
use revive_emu.Cache.Directory.{has_wildcard, cache_find_file}
use revive_emu.Cache.Stream.{pos, set, end, unsigned_of}
use revive_emu.FileSystem.{
  Os, FileSystem, Answer, local_file, file_in_cache, no_error, error_not_found, invalid_handle,
  new_file_handle, set_file, item_at,
}

-- `strpbrk(cszMode, "wa+")`
unfoldable pub may_write : List ℕ → Bool
may_write [] = false
may_write (c ∷ mode) = let rest = may_write mode in c == 0x77 || (c == 0x61 || (c == 0x2B || rest))

-- What `SteamOpenFile2` returns, and stores in `*puFileSize` and `*pbLocal`.
pub record Opened : Type 0 where
  pub handle : ℕ
  pub file_size : Option ℕ
  pub is_local : Option Bool

abbrev pub not_opened : Opened
not_opened = record { handle = invalid_handle; file_size = none; is_local = none }

-- The first name that `V_stricmp` finds equal.
unfoldable pub first_same : (List ℕ → List ℕ → Bool) → List ℕ → List (List ℕ) → Option (List ℕ)
first_same same name [] = none
first_same same name (n ∷ names) =
    let rest = first_same same name names in if same name n then some n else rest

module _ (os : Os) where
  -- `GetFileCaseless`
  unfoldable pub get_file_caseless : List ℕ → os.World → Option (List ℕ)
  get_file_caseless path w = elim (os.list_directory (os.extract_path path) w) [
    | none ↦ none
    | some names ↦ elim (first_same os.same_ignoring_case (os.platform.file_name path) names) [
      | none ↦ none
      | some n ↦ some (os.compose (os.extract_path path) n)
    ]
  ]

  -- `fopen` of the path, and of the name that differs in case.
  unfoldable pub open_local : List ℕ → List ℕ → os.World → Option ℕ × os.World
  open_local path mode w =
      let (file, w') = os.fopen path mode w in
      elim file [
        | some f ↦ (some f, w')
        | none ↦ elim (get_file_caseless path w') [
          | none ↦ (none, w')
          | some fixed ↦ os.fopen fixed mode w'
        ]
      ]

  -- The size that `fseek` and `ftell` tell, if it is asked for.
  unfoldable pub local_size : Bool → ℕ → os.World → Option ℕ × os.World
  local_size false file w = (none, w)
  local_size true file w =
      let w1 = (os.fseek file (pos 0) end w).1 in
      let w2 = (os.fseek file (pos 0) set w1).1 in (some (unsigned_of (os.ftell file w1)), w2)

module _ {os : Os} where
  -- `CacheOpenFileEx`: the handle and the size, unless it returns NULL.
  unfoldable pub cache_open_file :
      List ℕ → List ℕ → FileSystem os → Outcome (Option (ℕ × ℕ) × FileSystem os)
  cache_open_file name mode fs =
      if may_write mode
      then done (none, fs)
      else (elim (cache_find_file os.platform.in_cache name fs.manager.directories) [
        | none ↦ done (none, fs)
        | some e ↦ item_at e.cache e.index fs.manager >>= λ (c, item).
            let ((h, entry), fs') = new_file_handle fs in
            done (
              some (h, item.size),
              set_file h (record entry { member = file_in_cache e.cache e.index; mode = mode }) fs',
            )
      ])

  -- A new handle of a file of the disk.
  unfoldable pub new_local_file : ℕ → FileSystem os → ℕ × FileSystem os
  new_local_file file fs =
      let ((h, entry), fs') = new_file_handle fs in
      (h, set_file h (record entry { is_file_local = true; member = local_file file }) fs')

  abbrev not_found : FileSystem os → Outcome (Answer os Opened)
  not_found fs = done (record { value = not_opened; error = error_not_found; after = fs })

  -- The end of `SteamOpenFile2`, with what `CacheOpenFileEx` returned.
  abbrev pub opened_in_cache : Bool → Option (ℕ × ℕ) × FileSystem os → Outcome (Answer os Opened)
  opened_in_cache wants_size (none, fs) = not_found fs
  opened_in_cache wants_size (some (h, size), fs) = done (record {
    value = record {
      handle = h;
      file_size = if wants_size then some size else none;
      is_local = some false;
    };
    error = no_error;
    after = fs;
  })

  -- What follows on `fopen`.
  unfoldable pub open_from :
      List ℕ → List ℕ → Bool → FileSystem os → Option ℕ × os.World → Outcome (Answer os Opened)
  open_from name mode wants_size fs (some f, w) =
      let (size, w') = local_size os wants_size f w in
      let (h, fs') = new_local_file f (record fs { world = w' }) in
      done (record {
        value = record { handle = h; file_size = size; is_local = some true };
        error = no_error;
        after = fs';
      })
  open_from name mode wants_size fs (none, w) =
      if fs.has_caches
      then (cache_open_file name mode (record fs { world = w }) >>= opened_in_cache wants_size)
      else not_found (record fs { world = w })

  -- `SteamOpenFile2`; `wants_size` tells whether `puFileSize` is not NULL.
  unfoldable pub steam_open_file2 :
      List ℕ → List ℕ → Bool → FileSystem os → Outcome (Answer os Opened)
  steam_open_file2 name mode wants_size fs =
      if has_wildcard name
      then not_found fs
      else open_from name mode wants_size fs
          (open_local os (os.absolute_path name fs.world) mode fs.world)

  -- `SteamOpenFile` and `SteamOpenFileEx`
  unfoldable pub steam_open_file : List ℕ → List ℕ → FileSystem os → Outcome (Answer os Opened)
  steam_open_file name mode fs = steam_open_file2 name mode false fs

  unfoldable pub steam_open_file_ex :
      List ℕ → List ℕ → Bool → FileSystem os → Outcome (Answer os Opened)
  steam_open_file_ex name mode wants_size fs = steam_open_file2 name mode wants_size fs
