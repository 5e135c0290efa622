-- ===== src/FileSystem/Search/Calls.antt =====
-- The functions of the interface that search (Steam/steam/SteamFilesystem.h): `SteamFindFirst`,
-- `SteamFindNext`, `SteamFindClose`, `SteamStat` and `SteamIsFileImmediatelyAvailable`, with
-- `CacheFindFirst`, `CacheFindClose` and `CacheStat` (Steam/steam/CacheSystem/CCacheSystem.h).
use revive_emu.Base.{ℕ, Bool, true, false, not, ◌&&◌, ◌||◌, Option, none, some, List, if◌then◌else◌}
use revive_emu.Base.Map.{find}
use revive_emu.Cache.Outcome.{Outcome, done, fault, found, ◌>>=◌}
use revive_emu.Cache.Stream.{Long, pos}
use revive_emu.Cache.Directory.{has_wildcard, cache_find_file, FindHandle, cache_find_first}
use revive_emu.FileSystem.{
  Os, FileStatus, FileSystem, Answer, FindFilter, local_only, remote_only, all_places, other_filter,
  LocalFind, FindMember, no_find, local_find, find_in_cache, FindFileHandle, no_error,
  error_bad_arg, error_not_found, new_find_handle, set_find, close_find_handle,
}
use revive_emu.FileSystem.Access.{answer}
use revive_emu.FileSystem.Extract.{find_status}
use revive_emu.FileSystem.Search.{
  ElementInfo, is_listable, local_element, element_at, find_first_local, at_item, find_next_entry,
}

-- Which filters search the disk, and which the caches.
unfoldable pub on_disk : FindFilter → Bool
on_disk local_only = true
on_disk all_places = true
on_disk remote_only = false
on_disk other_filter = false

unfoldable pub in_caches : FindFilter → Bool
in_caches remote_only = true
in_caches all_places = true
in_caches local_only = false
in_caches other_filter = false

abbrev is_known : FindFilter → Bool
is_known filter = on_disk filter || in_caches filter

module _ {os : Os} where
  -- The answer of a search that found nothing.
  abbrev no_match : FileSystem os → Outcome (Answer os (Option (ℕ × ElementInfo)))
  no_match fs = answer none error_not_found fs

  -- `CacheFindFirst` with what it found, and the answer of `SteamFindFirst`.
  unfoldable pub tell_first :
      List ℕ
      → FindFilter
      → FileSystem os
      → Option FindHandle
      → Outcome (Answer os (Option (ℕ × ElementInfo)))
  tell_first pattern filter fs none = no_match fs
  tell_first pattern filter fs (some found_item) = element_at fs.manager found_item.item >>= λ e.
      let ((h, entry), fs') = new_find_handle fs in
      answer (some (h, e)) no_error (
        set_find h
          (at_item os
            (record entry {
              is_find_local = false;
              filter = filter;
              cache_pattern = found_item.cache_pattern;
              pattern = pattern;
            })
            found_item)
          fs')

  -- `CacheFindFirst`, as `SteamFindFirst` calls it.
  unfoldable pub find_first_cached :
      List ℕ → FindFilter → FileSystem os → Outcome (Answer os (Option (ℕ × ElementInfo)))
  find_first_cached pattern filter fs =
      tell_first pattern filter fs
        (cache_find_first os.platform.in_cache pattern fs.manager.directories)

  -- The search of `SteamFindFirst` on the disk, where it makes one.
  unfoldable pub first_local :
      Bool → List ℕ → FindFilter → FileSystem os → Option (ElementInfo × LocalFind)
  first_local has_caches pattern filter fs =
      if not has_caches || on_disk filter then find_first_local os pattern fs.world else none

  -- What follows on it.
  unfoldable pub first_from :
      Bool
      → List ℕ
      → FindFilter
      → Option (ElementInfo × LocalFind)
      → FileSystem os
      → Outcome (Answer os (Option (ℕ × ElementInfo)))
  first_from has_caches pattern filter (some (e, lf)) fs =
      let ((h, entry), fs') = new_find_handle fs in
      answer (some (h, e)) no_error (
        set_find h
          (record entry {
            is_find_local = true;
            member = local_find lf;
            filter = filter;
            pattern = pattern;
          })
          fs')
  first_from has_caches pattern filter none fs =
      if has_caches && in_caches filter then find_first_cached pattern filter fs else no_match fs

  -- `SteamFindFirst`: the handle and the element, unless it answers STEAM_INVALID_HANDLE.
  unfoldable pub steam_find_first :
      List ℕ → FindFilter → FileSystem os → Outcome (Answer os (Option (ℕ × ElementInfo)))
  steam_find_first pattern filter fs =
      if is_known filter
      then first_from fs.has_caches pattern filter (first_local fs.has_caches pattern filter fs) fs
      else answer none error_bad_arg fs

  -- `SteamFindNext`
  unfoldable pub steam_find_next : ℕ → FileSystem os → Outcome (Answer os (Option ElementInfo))
  steam_find_next h fs = found (find h fs.finds) >>= λ (f : FindFileHandle).
      find_next_entry os fs.has_caches f fs.manager fs.world >>= λ (e, f').
      answer e no_error (set_find h f' fs)

  -- `SteamFindClose`, with `_findclose` and `CacheFindClose`, which both answer 0.
  unfoldable pub steam_find_close : ℕ → FileSystem os → Outcome (Answer os Long)
  steam_find_close h fs =
      found (find h fs.finds) >>= λ (f : FindFileHandle). closed f.is_find_local f.member h fs
    where
      closed : Bool → FindMember → ℕ → FileSystem os → Outcome (Answer os Long)
      closed false member h fs = answer (pos 0) no_error (close_find_handle h fs)
      closed true (local_find lf) h fs = answer (pos 0) no_error (close_find_handle h fs)
      closed true no_find h fs = fault
      closed true (find_in_cache e) h fs = fault

  -- `CacheStat`
  unfoldable pub cache_stat : List ℕ → FileSystem os → Outcome (Option ElementInfo)
  cache_stat name fs = elim (cache_find_file os.platform.in_cache name fs.manager.directories) [
    | none ↦ done none
    | some e ↦ element_at fs.manager e >>= λ element. done (some element)
  ]

  -- `SteamStat`: the element if it answers 0.
  unfoldable pub steam_stat : List ℕ → FileSystem os → Outcome (Answer os (Option ElementInfo))
  steam_stat name fs =
      if has_wildcard name
      then answer none error_not_found fs
      else (told (find_status os name fs.world) name fs >>= λ e. answer e (error_of e) fs)
    where
      error_of : Option ElementInfo → ℕ
      error_of none = error_not_found
      error_of (some e) = no_error

      cached : List ℕ → FileSystem os → Outcome (Option ElementInfo)
      cached name fs = if fs.has_caches then cache_stat name fs else done none

      told : Option FileStatus → List ℕ → FileSystem os → Outcome (Option ElementInfo)
      told none name fs = cached name fs
      told (some status) name fs =
          if is_listable status
          then done (some (local_element (os.platform.file_name name) status))
          else cached name fs

  -- `SteamIsFileImmediatelyAvailable`
  unfoldable pub steam_is_file_immediately_available :
      List ℕ → FileSystem os → Outcome (Answer os Bool)
  steam_is_file_immediately_available name fs =
      steam_stat name fs >>= λ a. answer (is_some a.value) a.error a.after
    where
      is_some : Option ElementInfo → Bool
      is_some none = false
      is_some (some e) = true
