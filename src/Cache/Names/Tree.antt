-- ===== src/Cache/Names/Tree.antt =====
-- The directory table as the list of a tree's items.
use mathlib.Core.List.{append-nil, append_assoc, map-append}
use revive_emu.Base.{
  ℕ, zero, suc, ◌+◌, ◌<◌, true, false, none, some, List, [], ◌∷◌, ◌++◌, map, ◌==◌, ◌≡◌, ◌≢◌, refl,
  sym, ap, ◌∙◌, arith,
}
use revive_emu.Base.Lists.{get_elem?}
use revive_emu.Base.Map.{Map, insert}
use revive_emu.Cache.Outcome.{done}
use revive_emu.Cache.Layout.{Cache, ManifestEntry}
use revive_emu.Cache.Chain.{FileInfo, build_file_info}
use revive_emu.Cache.Mask.{backslash}
use revive_emu.Cache.Names.{
  CacheItem, entry_name, has_prefix, occurs_second, extra_mount, entry_path, new_item,
  build_directory_table, root_item, read_directory,
}

-- The items below a directory in their order, each a directory with the items below it or a file.
pub data Forest : Type 0 where
  nothing : Forest
  directory : ℕ → ManifestEntry → List ℕ → Forest → Forest → Forest
  file : ℕ → ManifestEntry → List ℕ → FileInfo → Forest → Forest

-- The links of the manifest from item `i` on are those of the forest, with the items' names and
-- what `BuildFileInfo` finds of the files.
unfoldable pub IsLinked : ℕ → Cache → ℕ → Forest → Type 0
IsLinked rounds c i nothing = i ≡ 0
IsLinked rounds c i (directory j e name below rest) =
    (i ≡ j)
    × (j ≢ 0)
    × (get_elem? c.manifest.entries j ≡ some e)
    × (entry_name c e ≡ done name)
    × (e.type_of ≡ 0)
    × IsLinked rounds c e.first_index below
    × IsLinked rounds c e.next_index rest
IsLinked rounds c i (file j e name info rest) =
    (i ≡ j)
    × (j ≢ 0)
    × (get_elem? c.manifest.entries j ≡ some e)
    × (entry_name c e ≡ done name)
    × (e.type_of ≢ 0)
    × (build_file_info rounds c j ≡ done info)
    × IsLinked rounds c e.next_index rest

abbrev pub size : Forest → ℕ
size nothing = 0
size (directory j e name below rest) = suc (size below + size rest)
size (file j e name info rest) = suc (size rest)

-- The items of a forest below a path, each under its number: the path of an item is that of the
-- directory that holds it, a backslash and its own name in lower case.
unfoldable pub items_below : (ℕ → ℕ) → List ℕ → Forest → List (ℕ × CacheItem)
items_below to_lower path nothing = []
items_below to_lower path (directory j e name below rest) =
    let full = path ++ backslash ∷ map to_lower name in
    (j, new_item to_lower e name full none)
    ∷ (items_below to_lower full below ++ items_below to_lower path rest)
items_below to_lower path (file j e name info rest) =
    (j, new_item to_lower e name (path ++ backslash ∷ map to_lower name) (some info))
    ∷ items_below to_lower path rest

abbrev pub insert_all : List (ℕ × CacheItem) → Map CacheItem → Map CacheItem
insert_all [] table = table
insert_all ((i, item) ∷ items) table = insert_all items (insert i item table)

-- The path of a cache's root under the path that it is mounted under.
abbrev pub mounted_at : List ℕ → List ℕ
mounted_at [] = []
mounted_at (c ∷ extra) = backslash ∷ c ∷ extra

-- `V_strlower` on bytes: it is idempotent and keeps the backslash.
pub record IsLowering (to_lower : ℕ → ℕ) : Type 0 where
  pub twice : (c : ℕ) → to_lower (to_lower c) ≡ to_lower c
  pub keeps_backslash : to_lower backslash ≡ backslash

-- A path to mount under: in lower case already, and without a backslash in front.
pub record IsMountPath (to_lower : ℕ → ℕ) (extra : List ℕ) : Type 0 where
  pub is_lower : map to_lower extra ≡ extra
  pub is_relative : has_prefix (backslash ∷ []) extra ≡ false

insert_all-append :
    (xs ys : List (ℕ × CacheItem)) (table : Map CacheItem)
    → insert_all (xs ++ ys) table ≡ insert_all ys (insert_all xs table)
insert_all-append [] ys table = refl
insert_all-append (x ∷ xs) ys table = insert_all-append xs ys (insert x.0 x.1 table)

map_twice : (f : ℕ → ℕ) → IsLowering f → (xs : List ℕ) → map f (map f xs) ≡ map f xs
map_twice f l [] = refl
map_twice f l (x ∷ xs) = rw (l.twice x, map_twice f l xs) refl

-- How a path that the code carries stands to the path that it means.
record Means (to_lower : ℕ → ℕ) (extra path full : List ℕ) : Type 0 where
  same : extra_mount extra path ++ path ≡ full
  lower : map to_lower full ≡ full
  behind : (rest : List ℕ) × (full ≡ mounted_at extra ++ rest)

has_prefix-append : (xs ys : List ℕ) → has_prefix xs (xs ++ ys) ≡ true
unfolding has_prefix
has_prefix-append [] ys = refl
has_prefix-append (x ∷ xs) ys = ground (arith, has_prefix-append xs ys)

-- Below the path that the cache is mounted under, nothing is put in front again.
extra_mount_below :
    (to_lower : ℕ → ℕ) (extra rest : List ℕ)
    → IsMountPath to_lower extra
    → extra_mount extra (mounted_at extra ++ rest) ≡ []
unfolding extra_mount occurs_second has_prefix
extra_mount_below to_lower [] rest m = refl
extra_mount_below to_lower (c ∷ extra) rest m =
    let other : c == backslash ≡ false = ground (arith, m.is_relative) in
    let behind = has_prefix-append (c ∷ extra) rest in rw other (rw behind refl)

entry_path_lem :
    (to_lower : ℕ → ℕ) (extra path full name : List ℕ)
    → IsLowering to_lower
    → Means to_lower extra path full
    → entry_path to_lower extra path name ≡ full ++ backslash ∷ map to_lower name
unfolding entry_path
entry_path_lem to_lower extra path full name l m =
    ap (map to_lower) (sym (append_assoc (extra_mount extra path) path (backslash ∷ name)))
    ∙ map-append to_lower (extra_mount extra path ++ path) (backslash ∷ name)
    ∙ ap (λ t. map to_lower t ++ to_lower backslash ∷ map to_lower name) m.same
    ∙ ap (λ t. t ++ to_lower backslash ∷ map to_lower name) m.lower
    ∙ ap (λ t. full ++ t ∷ map to_lower name) l.keeps_backslash

entry-Means :
    (to_lower : ℕ → ℕ) (extra path full name : List ℕ)
    → IsLowering to_lower
    → IsMountPath to_lower extra
    → Means to_lower extra path full
    → let next = full ++ backslash ∷ map to_lower name in Means to_lower extra next next
entry-Means to_lower extra path full name l p m =
    let next = full ++ backslash ∷ map to_lower name in
    let (rest, e) = m.behind in
    let at : next ≡ mounted_at extra ++ (rest ++ backslash ∷ map to_lower name) =
      ap (λ t. t ++ backslash ∷ map to_lower name) e
      ∙ append_assoc (mounted_at extra) rest (backslash ∷ map to_lower name) in
    record {
      same = ap (λ t. t ++ next) (ap (extra_mount extra) at ∙ extra_mount_below to_lower extra _ p);
      lower =
          map-append to_lower full (backslash ∷ map to_lower name)
          ∙ ap (λ t. t ++ to_lower backslash ∷ map to_lower (map to_lower name)) m.lower
          ∙ ap (λ t. full ++ t ∷ map to_lower (map to_lower name)) l.keeps_backslash
          ∙ ap (λ t. full ++ backslash ∷ t) (map_twice to_lower l name);
      behind = (rest ++ backslash ∷ map to_lower name, at);
    }

-- The loop from an item on, when what is linked from there is a forest.
build_directory_table_below :
    (to_lower : ℕ → ℕ) (rounds fuel : ℕ) (extra : List ℕ) (c : Cache) (i : ℕ) (path full : List ℕ)
    (forest : Forest) (table : Map CacheItem)
    → IsLowering to_lower
    → IsMountPath to_lower extra
    → Means to_lower extra path full
    → IsLinked rounds c i forest
    → size forest < fuel
    → build_directory_table to_lower rounds extra c fuel i path table
      ≡ done (insert_all (items_below to_lower full forest) table)
unfolding build_directory_table IsLinked items_below
build_directory_table_below to_lower rounds zero extra c i path full forest table l p m h k =
    absurd (omega arith)
build_directory_table_below to_lower rounds (suc fuel) extra c i path full nothing table l p m h k =
    rw h refl
build_directory_table_below to_lower rounds (suc fuel) extra c i path full
      (directory j e name below rest) table l p m (at, positive, held, named, kind, inner, outer)
      k =
    let next = full ++ backslash ∷ map to_lower name in
    let some_item : j == 0 ≡ false = ground arith in
    let is_directory : e.type_of == 0 ≡ true = ground arith in
    let table' = insert j (new_item to_lower e name next none) table in
    let inside =
      build_directory_table_below to_lower rounds fuel extra c e.first_index next next below table'
        l p (entry-Means to_lower extra path full name l p m) inner (omega arith) in
    let after =
      build_directory_table_below to_lower rounds fuel extra c e.next_index path full rest
        (insert_all (items_below to_lower next below) table') l p m outer (omega arith) in
    rw at (
      rw (some_item, build_directory_table)
        (rw held (
          rw named (
            rw is_directory (
              rw (entry_path_lem to_lower extra path full name l m) (
                rw inside (
                  after
                  ∙ ap done (
                      sym (
                        insert_all-append (items_below to_lower next below)
                          (items_below to_lower full rest) table')))))))))
build_directory_table_below to_lower rounds (suc fuel) extra c i path full (file j e name info rest)
      table l p m (at, positive, held, named, kind, read, outer) k =
    let next = full ++ backslash ∷ map to_lower name in
    let some_item : j == 0 ≡ false = ground arith in
    let is_file : e.type_of == 0 ≡ false = ground arith in
    let after =
      build_directory_table_below to_lower rounds fuel extra c e.next_index path full rest
        (insert j (new_item to_lower e name next (some info)) table) l p m outer (omega arith) in
    rw at (
      rw (some_item, build_directory_table)
        (rw held (
          rw named
            (rw is_file (rw read (rw (entry_path_lem to_lower extra path full name l m) after))))))

root-Means :
    (to_lower : ℕ → ℕ) (extra : List ℕ)
    → IsLowering to_lower
    → IsMountPath to_lower extra
    → Means to_lower extra [] (mounted_at extra)
unfolding extra_mount occurs_second has_prefix
root-Means to_lower [] l p = record { same = refl; lower = refl; behind = ([], refl) }
root-Means to_lower (c ∷ extra) l p = record {
  same = append-nil (backslash ∷ c ∷ extra);
  lower = rw (l.keeps_backslash, p.is_lower) refl;
  behind = ([], sym (append-nil (backslash ∷ c ∷ extra)));
}

-- For a cache whose links from the root are those of a forest, and a path to mount it under that
-- is in lower case and has no backslash in front, the directory table is made when the fuel is
-- more than the items of the forest: it has the root and the items of the forest in order, each
-- with the path that its place in the forest gives it below that path, in lower case.
pub read_directory_lem :
    (to_lower : ℕ → ℕ) (rounds fuel : ℕ) (extra : List ℕ) (c : Cache) (root : ManifestEntry)
    (forest : Forest)
    → IsLowering to_lower
    → IsMountPath to_lower extra
    → get_elem? c.manifest.entries 0 ≡ some root
    → IsLinked rounds c root.first_index forest
    → size forest < fuel
    → read_directory to_lower rounds fuel extra c
      ≡ done (insert_all ((0, root_item root) ∷ items_below to_lower (mounted_at extra) forest) [])
unfolding read_directory
read_directory_lem to_lower rounds fuel extra c root forest l p e h k = rw e (
    build_directory_table_below to_lower rounds fuel extra c root.first_index [] (mounted_at extra)
      forest (insert 0 (root_item root) []) l p (root-Means to_lower extra l p) h k)
