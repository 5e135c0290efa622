-- ===== src/FileSystem/Depots/Mounting.antt =====
-- `SteamMountFilesystem`, `SteamUnmountAppFilesystem` and, for a known App ID and a content
-- description, `SteamMountAppFilesystem` (Steam/steam/SteamFilesystem.h). Without a content
-- description the names of the caches are read from a file of settings, which is left out.
use revive_emu.Base.{ℕ, Bool, none, some, List, [], if◌then◌else◌}
use revive_emu.Base.Map.{Map, find, insert}
use revive_emu.Cache.Outcome.{Outcome, done, ◌>>=◌}
use revive_emu.Cache.Mount.{unmount_all}
use revive_emu.FileSystem.{Os, FileSystem, Answer, no_error, unknown_error}
use revive_emu.FileSystem.Access.{answer}
use revive_emu.FileSystem.Depots.{
  Library, App, Dependency, parse_app_dependencies, mount_file_system_by_id, mount_dependencies,
}

-- `g_AppDependencies[uAppId]`, which makes an entry that is not there.
unfoldable pub entry_at : ℕ → Map (List Dependency) → List Dependency × Map (List Dependency)
entry_at id known = elim (find id known) [
  | some depots ↦ (depots, known)
  | none ↦ ([], insert id [] known)
]

module _ {os : Os} where
  -- `SteamMountFilesystem`; `has_blob` is `g_bSteamBlobSystem`.
  unfoldable pub steam_mount_filesystem :
      Library → List App → Bool → ℕ → List ℕ → FileSystem os → Outcome (Answer os ℕ)
  steam_mount_filesystem l apps has_blob id extra fs =
      if has_blob
      then (mount_file_system_by_id l os.platform apps id extra fs.manager >>= λ m.
          answer 1 no_error (record fs { manager = m }))
      else answer 0 unknown_error fs

  -- `SteamMountAppFilesystem`, with `g_AppDependencies` before and after it.
  unfoldable pub steam_mount_app_filesystem :
      Library
      → List App
      → ℕ
      → ℕ
      → Map (List Dependency)
      → FileSystem os
      → Outcome (Map (List Dependency) × FileSystem os)
  steam_mount_app_filesystem l apps fuel id known fs =
      if fs.has_caches
      then (parse_app_dependencies l apps fuel id known >>= λ known'.
          let (depots, all) = entry_at id known' in
          mount_dependencies l os.platform apps depots fs.manager >>= λ m.
          done (all, record fs { manager = m }))
      else done (known, fs)

  -- `SteamUnmountAppFilesystem`
  unfoldable pub steam_unmount_app_filesystem : FileSystem os → Outcome (Answer os ℕ)
  steam_unmount_app_filesystem fs =
      if fs.has_caches
      then (unmount_all fs.manager >>= λ m. answer 1 no_error (record fs { manager = m }))
      else answer 1 no_error fs
