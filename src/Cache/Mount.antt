-- ===== src/Cache/Mount.antt =====
-- `CCacheFileSystem` (Steam/steam/CacheSystem/CCacheSystem.h): `MountCache`, `UnmountCache` and
-- `UnmountAll`. A mounted cache goes by a number that stands for its address; an address is not
-- used again. What the code calls of the string library and of the file system is a parameter:
-- `Platform`. Names are shorter than MAX_PATH.
pub mod Backed
use revive_emu.Base.{
  ℕ, zero, suc, ◌+◌, ◌-◌, Bool, true, false, Option, none, some, List, [], ◌∷◌, ◌++◌, if◌then◌else◌,
}
use revive_emu.Base.Bytes.{Memory}
use revive_emu.Base.Map.{Map, find, erase}
use revive_emu.Base.Text.{same_text}
use revive_emu.Cache.Outcome.{Outcome, done, fault, found, ◌>>=◌}
use revive_emu.Cache.Layout.{Cache}
use revive_emu.Cache.Names.{CacheItem, read}
use revive_emu.Cache.Directory.{Directories, build_global_directory_table}

-- `V_strlower` on a byte, `V_GetFileName`, `GetFilenameInCache`, and `fopen` of a cache file for
-- reading: its bytes and their count. `rounds` and `depth` are the fuel for reading it.
pub record Platform : Type 0 where
  pub to_lower : ℕ → ℕ
  pub file_name : List ℕ → List ℕ
  pub in_cache : List ℕ → Option (List ℕ)
  pub open_cache : List ℕ → Option (Memory × ℕ)
  pub rounds : ℕ
  pub depth : ℕ

-- CCache, with the file that it was read from.
pub record MountedCache : Type 0 where
  pub name : List ℕ
  pub bytes : Memory
  pub byte_count : ℕ
  pub cache : Cache
  pub items : Map CacheItem

-- CCacheFileSystem
pub record Manager : Type 0 where
  pub next_address : ℕ
  pub caches : Map MountedCache
  pub directories : Directories

-- The test of `MountCache` over `Caches`.
unfoldable pub is_mounted : List ℕ → Map MountedCache → Bool
is_mounted name [] = false
is_mounted name ((i, c) ∷ caches) =
    let rest = is_mounted name caches in if same_text c.name name then true else rest

-- The full names of `n` items from number `i` on; an item that was not set has NULL.
unfoldable pub item_names : ℕ → ℕ → Map CacheItem → Outcome (List (List ℕ))
item_names i zero items = done []
item_names i (suc n) items = found (find i items) >>= λ (item : CacheItem).
    item_names (i + 1) n items >>= λ names. done (item.full_name ∷ names)

-- The rest of `MountCache`, for a file that could be opened.
unfoldable pub add_cache :
    Platform → List ℕ → List ℕ → Memory × ℕ → Manager → Outcome (Manager × Option ℕ)
add_cache p path extra (bytes, byte_count) m =
    read p.to_lower p.rounds p.depth extra bytes >>= λ (cache, items).
    item_names 1 (cache.manifest.header.item_count - 1) items >>= λ names. done (
      record {
        next_address = m.next_address + 1;
        caches =
            m.caches
            ++ (
              m.next_address,
              record {
                name = p.file_name path;
                bytes = bytes;
                byte_count = byte_count;
                cache = cache;
                items = items;
              },
            )
              ∷ [];
        directories = build_global_directory_table m.next_address names m.directories;
      },
      some m.next_address,
    )

-- `MountCache`: the handle is `none` for 0.
unfoldable pub mount_cache : Platform → List ℕ → List ℕ → Manager → Outcome (Manager × Option ℕ)
mount_cache p path extra m = elim (is_mounted (p.file_name path) m.caches) [
  | true ↦ done (m, none)
  | false ↦ elim (p.open_cache path) [
    | none ↦ done (m, none)
    | some file ↦ add_cache p path extra file m
  ]
]

-- `UnmountCache`; the tables of names stay.
unfoldable pub unmount_cache : ℕ → Manager → Manager × Bool
unmount_cache address m = elim (find address m.caches) [
  | none ↦ (m, false)
  | some c ↦ (record m { caches = erase address m.caches }, true)
]

-- The loop of `UnmountAll` over `Caches`. `erase` makes the iterators of the loop invalid, and it
-- goes on with them.
unfoldable pub unmount_each : Map MountedCache → Manager → Outcome Manager
unmount_each [] m = done m
unmount_each ((address, c) ∷ caches) m =
    if (unmount_cache address m).1 then fault else unmount_each caches m

-- `UnmountAll`
unfoldable pub unmount_all : Manager → Outcome Manager
unmount_all m = unmount_each m.caches (record m { directories = record { table = []; hash = [] } })
