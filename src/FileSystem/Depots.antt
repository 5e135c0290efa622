-- ===== src/FileSystem/Depots.antt =====
-- Steam/steam/SteamFilesystem.h: the caches that an application needs (`ParseAppDependencies` and
-- what it calls), and their mounting; with `SteamGetAppUserDefinedInfo` of Steam/steam/
-- SteamApplication.h. It is the build for Linux. The records
-- that users define come in the order of their map. Texts are shorter than the buffers that
-- they are put together in. `V_stricmp`, `atoi` and the joining of paths are parameters: `Library`.
-- An application that depends on itself through others keeps the program going until its stack is
-- used up, so the recursion over dependencies has fuel.
pub mod Described
pub mod Chain
pub mod Mounting
mod Tests
use revive_emu.Base.{
  ℕ, zero, suc, ◌+◌, ◌-◌, Bool, true, false, ◌&&◌, Option, none, some, List, [], ◌∷◌, ◌++◌, ◌==◌,
  leb, if◌then◌else◌, map,
}
use revive_emu.Base.Bytes.{u32_mod}
use revive_emu.Base.Lists.{length, take}
use revive_emu.Base.Map.{Map, find, insert}
use revive_emu.Cache.Outcome.{Outcome, done, out_of_fuel, ◌>>=◌}
use revive_emu.Cache.Mount.{Platform, Manager, mount_cache}

-- `V_stricmp(a, b) == 0`, `atoi`, and `V_ComposeFileName` behind `g_szGCFPath`; and `g_szLanguage`.
pub record Library : Type 0 where
  pub same_ignoring_case : List ℕ → List ℕ → Bool
  pub atoi : List ℕ → ℕ
  pub cache_path : List ℕ → List ℕ
  pub language : List ℕ

-- CAppFilesystemRecord, with its texts as C strings; `none` is NULL.
pub record AppFilesystem : Type 0 where
  pub app_id : ℕ
  pub mount_name : List ℕ
  pub valid_os_list : Option (List ℕ)

-- CAppRecord, as it is used here.
pub record App : Type 0 where
  pub app_id : ℕ
  pub name : List ℕ
  pub install_dir_name : List ℕ
  pub filesystems : List AppFilesystem
  pub user_defined : List (List ℕ × List ℕ)

-- TSteamAppDependencyInfo
pub record Dependency : Type 0 where
  pub app_id : ℕ
  pub is_system_defined : Bool
  pub mount_path : List ℕ

-- `GetAppRecord`
unfoldable pub get_app_record : ℕ → List App → Option App
get_app_record id [] = none
get_app_record id (a ∷ apps) =
    let rest = get_app_record id apps in if id == a.app_id then some a else rest

-- UINT_MAX
abbrev pub no_app : ℕ
no_app = u32_mod - 1

-- `GetAppIDFromName`
unfoldable pub get_app_id_from_name : Library → List ℕ → List App → ℕ
get_app_id_from_name l name [] = no_app
get_app_id_from_name l name (a ∷ apps) =
    let rest = get_app_id_from_name l name apps in
    if l.same_ignoring_case name a.name then a.app_id else rest

-- The loop of `SteamGetAppUserDefinedInfo`, for a buffer of 32 bytes.
unfoldable pub user_defined_value : Library → List ℕ → List (List ℕ × List ℕ) → Option (List ℕ)
user_defined_value l key [] = none
user_defined_value l key ((k, v) ∷ records) =
    let rest = user_defined_value l key records in
    if l.same_ignoring_case key k && leb (length v + 1) 32 then some v else rest

-- `SteamGetAppUserDefinedInfo`: the value, unless it answers 0.
unfoldable pub user_defined_info : Library → ℕ → List ℕ → List App → Option (List ℕ)
user_defined_info l id key apps = elim (get_app_record id apps) [
  | none ↦ none
  | some a ↦ user_defined_value l key a.user_defined
]

-- What `AddAppDependency` pushes.
abbrev pub dependency : ℕ → List ℕ → Bool → Dependency
dependency id mount_path is_system_defined = record {
  app_id = id;
  is_system_defined = is_system_defined;
  mount_path = mount_path;
}

-- `"hdaddon"`
abbrev hd_addon : List ℕ
hd_addon = 0x68 ∷ 0x64 ∷ 0x61 ∷ 0x64 ∷ 0x64 ∷ 0x6F ∷ 0x6E ∷ []

-- `"dependantOnApp"`
abbrev pub dependant_on_app : List ℕ
dependant_on_app =
    0x64 ∷ 0x65 ∷ 0x70 ∷ 0x65 ∷ 0x6E ∷ 0x64 ∷ 0x61 ∷ 0x6E ∷ 0x74 ∷ 0x4F ∷ 0x6E ∷ 0x41 ∷ 0x70 ∷ 0x70
    ∷ []

-- `AddExtraDepots`
unfoldable pub add_extra_depots : Library → List App → ℕ → List Dependency → List Dependency
add_extra_depots l apps id depots = elim (user_defined_info l id hd_addon apps) [
  | none ↦ depots
  | some v ↦ depots ++ dependency (l.atoi v) [] false ∷ []
]

-- The localization depot of an application, with the one that goes before it.
unfoldable pub language_depots : Library → List App → App → List Dependency
language_depots l apps a =
    let depot = get_app_id_from_name l (a.name ++ 0x20 ∷ l.language) apps in
    if depot == no_app
    then []
    else (if depot == 232
        then dependency 235 [] false ∷ dependency depot [] false ∷ []
        else dependency depot [] false ∷ [])

-- `AddExtraLanguageDepots` with `bCheckDependency`.
unfoldable pub add_extra_language_depots :
    Library → List App → ℕ → ℕ → List Dependency → Outcome (List Dependency)
add_extra_language_depots l apps zero id depots = out_of_fuel
add_extra_language_depots l apps (suc fuel) id depots = elim (get_app_record id apps) [
  | none ↦ done depots
  | some a ↦ elim (user_defined_value l dependant_on_app a.user_defined) [
    | none ↦ done (depots ++ language_depots l apps a)
    | some v ↦ add_extra_language_depots l apps fuel (l.atoi v) (depots ++ language_depots l apps a)
  ]
]

-- `strtok` by commas: the parts of a text that are not empty; `part` is the one begun.
unfoldable pub os_tokens : List ℕ → List ℕ → List (List ℕ)
os_tokens [] [] = []
os_tokens (c ∷ part) [] = (c ∷ part) ∷ []
os_tokens part (c ∷ text) = elim (c == 0x2C) [
  | true ↦ close part (os_tokens [] text)
  | false ↦ os_tokens (part ++ c ∷ []) text
]
  where
    close : List ℕ → List (List ℕ) → List (List ℕ)
    close [] rest = rest
    close (c ∷ part) rest = (c ∷ part) ∷ rest

-- `"linux"`
abbrev pub host_os : List ℕ
host_os = 0x6C ∷ 0x69 ∷ 0x6E ∷ 0x75 ∷ 0x78 ∷ []

unfoldable pub has_host : Library → List (List ℕ) → Bool
has_host l [] = false
has_host l (t ∷ ts) =
    let rest = has_host l ts in if l.same_ignoring_case t host_os then true else rest

-- Whether a file system is for this operating system.
unfoldable pub is_for_host : Library → AppFilesystem → Bool
is_for_host l fs = elim fs.valid_os_list [
  | none ↦ true
  | some list ↦ has_host l (os_tokens [] (take 63 list))
]

-- The loop over the file systems.
unfoldable pub add_filesystems : Library → List AppFilesystem → List Dependency → List Dependency
add_filesystems l [] depots = depots
add_filesystems l (fs ∷ rest) depots =
    add_filesystems l rest
      (if is_for_host l fs then depots ++ dependency fs.app_id fs.mount_name true ∷ [] else depots)

-- The part of `ParseAppDependencies` behind its guards, for an application's file systems.
unfoldable pub new_dependencies :
    Library
    → List App
    → ℕ
    → ℕ
    → List AppFilesystem
    → Map (List Dependency)
    → Outcome (Map (List Dependency))
new_dependencies l apps fuel id [] known = done known
new_dependencies l apps fuel id (fs ∷ rest) known =
    add_extra_language_depots l apps fuel id (add_extra_depots l apps id []) >>= λ depots.
    done (insert id (add_filesystems l (fs ∷ rest) depots) known)

-- `ParseAppDependencies`: `g_AppDependencies` after it.
unfoldable pub parse_app_dependencies :
    Library → List App → ℕ → ℕ → Map (List Dependency) → Outcome (Map (List Dependency))
parse_app_dependencies l apps fuel id known = elim (find id known) [
  | some depots ↦ done known
  | none ↦ elim (get_app_record id apps) [
    | none ↦ done known
    | some a ↦ new_dependencies l apps fuel id a.filesystems known
  ]
]

-- `".gcf"`
abbrev gcf_ending : List ℕ
gcf_ending = 0x2E ∷ 0x67 ∷ 0x63 ∷ 0x66 ∷ []

-- `MountFileSystemByID`
unfoldable pub mount_file_system_by_id :
    Library → Platform → List App → ℕ → List ℕ → Manager → Outcome Manager
mount_file_system_by_id l p apps id extra m = elim (get_app_record id apps) [
  | none ↦ done m
  | some a ↦
      mount_cache p (l.cache_path (map p.to_lower a.install_dir_name ++ gcf_ending)) extra m
      >>= λ r. done r.0
]

-- The loop of `SteamMountAppFilesystem` over an application's dependencies.
unfoldable pub mount_dependencies :
    Library → Platform → List App → List Dependency → Manager → Outcome Manager
mount_dependencies l p apps [] m = done m
mount_dependencies l p apps (d ∷ ds) m =
    mount_file_system_by_id l p apps d.app_id d.mount_path m >>= λ m'.
    mount_dependencies l p apps ds m'
