-- ===== src/Cache/Mount/Backed.antt =====
-- What the tables of names hold across mounts.
use revive_emu.Base.{
  ℕ, zero, suc, ◌+◌, ◌-◌, ◌<◌, false, Option, none, some, List, [], ◌∷◌, ◌++◌, ◌==◌, ◌≡◌, refl, sym,
  ◌∙◌, subst, arith, Bool-cases, Option-cases, inl, inr,
}
use revive_emu.Base.Lists.{All, All-append}
use revive_emu.Base.Map.{Map, find}
use revive_emu.Cache.Outcome.{Outcome, done, found, >>=-done, found-done}
use revive_emu.Cache.Names.{CacheItem, read}
use revive_emu.Cache.Directory.{
  Located, Directories, lookup, add_name, add_names, text_less, insert_sorted, sort,
  build_global_directory_table,
}
use revive_emu.Cache.Mount.{
  Platform, MountedCache, Manager, is_mounted, item_names, add_cache, mount_cache,
}

-- An entry of the tables stands for an item of a mounted cache with its full name.
pub record IsBackedBy (caches : Map MountedCache) (e : Located) : Type 0 where
  pub cache : MountedCache
  pub item : CacheItem
  pub cache_found : find e.cache caches ≡ some cache
  pub item_found : find e.index cache.items ≡ some item
  pub same_name : item.full_name ≡ e.full_name

-- Every entry of both tables is backed, and the addresses of the caches are used up.
pub record IsBacked (m : Manager) : Type 0 where
  pub hash : All (IsBackedBy m.caches) m.directories.hash
  pub table : All (IsBackedBy m.caches) m.directories.table
  pub below : All (λ (e : ℕ × MountedCache). e.0 < m.next_address) m.caches

All-imply {ℓ} :
    {A : Type ℓ} (P Q : A → Type 0) (xs : List A) → ((x : A) → P x → Q x) → All P xs → All Q xs
All-imply P Q [] f h = tt
All-imply P Q (x ∷ xs) f h = (f x h.0, All-imply P Q xs f h.1)

All-insert_sorted :
    (P : Located → Type 0) (e : Located) (es : List Located)
    → P e
    → All P es
    → All P (insert_sorted e es)
unfolding insert_sorted
All-insert_sorted P e [] h k = (h, tt)
All-insert_sorted P e (f ∷ fs) h k = elim (Bool-cases (text_less f.full_name e.full_name)) [
  | inl less ↦ rw less (k.0, All-insert_sorted P e fs h k.1)
  | inr other ↦ rw other (h, k)
]

All-sort : (P : Located → Type 0) (es : List Located) → All P es → All P (sort es)
unfolding sort
All-sort P [] h = tt
All-sort P (e ∷ es) h = All-insert_sorted P e (sort es) h.0 (All-sort P es h.1)

-- What every entry of both tables has.
abbrev HasAll : (Located → Type 0) → Directories → Type 0
HasAll P d = All P d.hash × All P d.table

add_name-HasAll :
    (P : Located → Type 0) (e : Located) (d : Directories)
    → P e
    → HasAll P d
    → HasAll P (add_name e d)
unfolding add_name
add_name-HasAll P e d h k = elim (Option-cases (lookup e.full_name d.hash)) [
  | inl new ↦ rw (new, add_name) ((h, k.0), All-append P d.table (e ∷ []) k.1 (h, tt))
  | inr (old, present) ↦ rw (present, add_name) k
]

-- The entries that a cache's names are entered under.
abbrev Entered : (Located → Type 0) → ℕ → ℕ → List (List ℕ) → Type 0
Entered P cache i [] = Unit
Entered P cache i (name ∷ names) =
    P (record { cache = cache; full_name = name; index = i }) × Entered P cache (i + 1) names

add_names-HasAll :
    (P : Located → Type 0) (cache i : ℕ) (names : List (List ℕ)) (d : Directories)
    → Entered P cache i names
    → HasAll P d
    → HasAll P (add_names cache i names d)
unfolding add_names
add_names-HasAll P cache i [] d h k = k
add_names-HasAll P cache i (name ∷ names) d h k =
    add_names-HasAll P cache (i + 1) names _ h.1 (add_name-HasAll P _ d h.0 k)

build_global_directory_table-HasAll :
    (P : Located → Type 0) (cache : ℕ) (names : List (List ℕ)) (d : Directories)
    → Entered P cache 1 names
    → HasAll P d
    → HasAll P (build_global_directory_table cache names d)
unfolding build_global_directory_table
build_global_directory_table-HasAll P cache names d h k =
    let all = add_names-HasAll P cache 1 names d h k in
    (all.0, All-sort P (add_names cache 1 names d).table all.1)

-- A look-up behind which another cache is added.
find-append_old :
    (k : ℕ) (c : MountedCache) (m rest : Map MountedCache)
    → find k m ≡ some c
    → find k (m ++ rest) ≡ some c
unfolding find
find-append_old k c [] rest e = absurd cc
find-append_old k c ((j, d) ∷ m) rest e = ground (arith, find-append_old k c m rest)

find-append_new :
    (k : ℕ) (c : MountedCache) (m : Map MountedCache)
    → All (λ (e : ℕ × MountedCache). e.0 < k) m
    → find k (m ++ (k, c) ∷ []) ≡ some c
unfolding find
find-append_new k c [] h = ground arith
find-append_new k c ((j, d) ∷ m) h =
    let other : k == j ≡ false = ground arith in rw other (find-append_new k c m h.1)

item_names-Entered :
    (caches : Map MountedCache) (address : ℕ) (c : MountedCache) (i n : ℕ) (names : List (List ℕ))
    → find address caches ≡ some c
    → item_names i n c.items ≡ done names
    → Entered (IsBackedBy caches) address i names
unfolding item_names
item_names-Entered caches address c i zero [] h e = tt
item_names-Entered caches address c i zero (name ∷ names) h e = absurd cc
item_names-Entered caches address c i (suc n) names h e =
    let (item, there, after) = >>=-done (found (find i c.items)) _ e in
    let (rest, listed, same) = >>=-done (item_names (i + 1) n c.items) _ after in
    subst (Entered (IsBackedBy caches) address i) (list_of same) (
      record {
        cache = c;
        item = item;
        cache_found = h;
        item_found = found-done (find i c.items) there;
        same_name = refl;
      },
      item_names-Entered caches address c (i + 1) n rest h listed,
    )
  where
    list_of : {xs ys : List (List ℕ)} → done xs ≡ done ys → xs ≡ ys
    list_of e = cc

-- What a call of `MountCache` returned.
abbrev Mounted : Type 0
Mounted = Outcome (Manager × Option ℕ)

manager_of :
    {x y : Manager} {s t : Option ℕ} → ◌≡◌ {A = Mounted} (done (x, s)) (done (y, t)) → x ≡ y
manager_of e = cc

add_cache-IsBacked :
    (p : Platform) (path extra : List ℕ) (file : _) (m m' : Manager) (r : Option ℕ)
    → add_cache p path extra file m ≡ done (m', r)
    → IsBacked m
    → IsBacked m'
unfolding add_cache
add_cache-IsBacked p path extra (bytes, byte_count) m m' r e b =
    let (both, was_read, after) = >>=-done (read p.to_lower p.rounds p.depth extra bytes) _ e in
    let (names, listed, same) =
      >>=-done (item_names 1 (both.0.manifest.header.item_count - 1) both.1) _ after in
    let c : MountedCache = record {
      name = p.file_name path;
      bytes = bytes;
      byte_count = byte_count;
      cache = both.0;
      items = both.1;
    } in
    let caches = m.caches ++ (m.next_address, c) ∷ [] in
    let old = λ (x : Located) (y : IsBackedBy m.caches x). stays m.caches _ x y in
    let all =
      build_global_directory_table-HasAll (IsBackedBy caches) m.next_address names m.directories
        (item_names-Entered caches m.next_address c 1 _ names
          (find-append_new m.next_address c m.caches b.below) listed)
        (
          All-imply (IsBackedBy m.caches) (IsBackedBy caches) m.directories.hash old b.hash,
          All-imply (IsBackedBy m.caches) (IsBackedBy caches) m.directories.table old b.table,
        ) in
    subst IsBacked (manager_of same) (record {
      hash = all.0;
      table = all.1;
      below =
          All-append _ m.caches ((m.next_address, c) ∷ [])
            (All-imply _ _ m.caches (λ x l. omega arith) b.below) (omega arith, tt);
    })
  where
    stays :
        (caches rest : Map MountedCache) (x : Located)
        → IsBackedBy caches x
        → IsBackedBy (caches ++ rest) x
    stays caches rest x y = record {
      cache = y.cache;
      item = y.item;
      item_found = y.item_found;
      same_name = y.same_name;
      cache_found = find-append_old x.cache y.cache caches rest y.cache_found;
    }

-- A mount that returns, also one that finds the cache mounted already or cannot open it, keeps the
-- tables sound: each of their entries stands for an item of a mounted cache with its full name,
-- and every address of a mounted cache is below the next one.
pub mount_cache-IsBacked :
    (p : Platform) (path extra : List ℕ) (m m' : Manager) (r : Option ℕ)
    → mount_cache p path extra m ≡ done (m', r)
    → IsBacked m
    → IsBacked m'
unfolding mount_cache
mount_cache-IsBacked p path extra m m' r e b =
    elim (Bool-cases (is_mounted (p.file_name path) m.caches)) [
      | inl mounted ↦
          let kept : mount_cache p path extra m ≡ done (m, none) = rw (mounted, mount_cache) refl in
          subst IsBacked (manager_of (sym kept ∙ e)) b
      | inr fresh ↦ elim (Option-cases (p.open_cache path)) [
        | inl missing ↦
            let kept : mount_cache p path extra m ≡ done (m, none) =
              rw (fresh, mount_cache) (rw missing refl) in
            subst IsBacked (manager_of (sym kept ∙ e)) b
        | inr (file, opened) ↦
            let added : mount_cache p path extra m ≡ add_cache p path extra file m =
              rw (fresh, mount_cache) (rw opened refl) in
            add_cache-IsBacked p path extra file m m' r (sym added ∙ e) b
      ]
    ]
