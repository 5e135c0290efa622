-- ===== src/Cache/Directory/Mounted.antt =====
-- The tables after `BuildGlobalDirectoryTable`.
use revive_emu.Base.{
  ℕ, ◌+◌, Bool, true, false, Option, none, some, List, [], ◌∷◌, ◌++◌, if◌then◌else◌, ◌≡◌, refl, sym,
  ap, ◌∙◌, arith, Bool-cases, Option-cases, inl, inr,
}
use revive_emu.Base.Text.{same_text, same_text_eq}
use revive_emu.Cache.Directory.Order.{IsOrdered, lookup-sort, sort-IsOrdered}
use revive_emu.Cache.Directory.{
  Located, Directories, lookup, add_name, add_names, build_global_directory_table,
}

unfoldable pub or_else : Option Located → Option Located → Option Located
or_else none b = b
or_else (some e) b = some e

-- The first item of a cache with this name, from number `i` on.
unfoldable pub first_named : ℕ → ℕ → List (List ℕ) → List ℕ → Option Located
first_named cache i [] name = none
first_named cache i (n ∷ names) name =
    let rest = first_named cache (i + 1) names name in
    if same_text n name then some (record { cache = cache; full_name = n; index = i }) else rest

lookup_same : (a b : List ℕ) (es : List Located) → same_text a b ≡ true → lookup a es ≡ lookup b es
lookup_same a b es e = ap (λ n. lookup n es) (same_text_eq a b e)

or_else-none : (o : Option Located) → o ≡ or_else o none
unfolding or_else
or_else-none none = refl
or_else-none (some e) = refl

or_else_assoc : (a b c : Option Located) → or_else (or_else a b) c ≡ or_else a (or_else b c)
unfolding or_else
or_else_assoc none b c = refl
or_else_assoc (some e) b c = refl

add_name_new :
    (e : Located) (d : Directories)
    → lookup e.full_name d.hash ≡ none
    → add_name e d ≡ record { table = d.table ++ e ∷ []; hash = e ∷ d.hash }
unfolding add_name
add_name_new e d g = rw (add_name, g) refl

add_name_old :
    (e old : Located) (d : Directories) → lookup e.full_name d.hash ≡ some old → add_name e d ≡ d
unfolding add_name
add_name_old e old d g = rw (add_name, g) refl

lookup-none :
    (e : Located) (name : List ℕ) (es : List Located)
    → same_text e.full_name name ≡ true
    → lookup e.full_name es ≡ none
    → lookup name es ≡ none
lookup-none e name es s g = sym (lookup_same e.full_name name es s) ∙ g

-- The look-up after an entry that is new.
lookup_new :
    (name : List ℕ) (e : Located) (es : List Located)
    → lookup e.full_name es ≡ none
    → (if same_text e.full_name name then some e else lookup name es)
      ≡ or_else (lookup name es) (if same_text e.full_name name then some e else none)
unfolding or_else
lookup_new name e es g = elim (Bool-cases (same_text e.full_name name)) [
  | inl s ↦ rw s (rw (lookup-none e name es s g) refl)
  | inr s ↦ rw s (or_else-none (lookup name es))
]

-- The look-up beside an entry that is not.
lookup_old :
    (name : List ℕ) (e old : Located) (es : List Located)
    → lookup e.full_name es ≡ some old
    → lookup name es
      ≡ or_else (lookup name es) (if same_text e.full_name name then some e else none)
unfolding or_else
lookup_old name e old es g = elim (Bool-cases (same_text e.full_name name)) [
  | inl s ↦
      let same : lookup name es ≡ some old = sym (lookup_same e.full_name name es s) ∙ g in
      rw same refl
  | inr s ↦ rw s (or_else-none (lookup name es))
]

lookup-add_name :
    (name : List ℕ) (e : Located) (d : Directories)
    → lookup name (add_name e d).hash
      ≡ or_else (lookup name d.hash) (if same_text e.full_name name then some e else none)
unfolding lookup
lookup-add_name name e d = elim (Option-cases (lookup e.full_name d.hash)) [
  | inl g ↦ rw (add_name_new e d g) (lookup_new name e d.hash g)
  | inr (old, g) ↦ rw (add_name_old e old d g) (lookup_old name e old d.hash g)
]

lookup-append :
    (name : List ℕ) (es fs : List Located)
    → lookup name (es ++ fs) ≡ or_else (lookup name es) (lookup name fs)
unfolding lookup or_else
lookup-append name [] fs = refl
lookup-append name (e ∷ es) fs = ground (arith, lookup-append name es fs)

-- What the loop over a cache adds to the look-up.
lookup-add_names :
    (name : List ℕ) (cache i : ℕ) (names : List (List ℕ)) (d : Directories)
    → lookup name (add_names cache i names d).hash
      ≡ or_else (lookup name d.hash) (first_named cache i names name)
unfolding add_names first_named or_else
lookup-add_names name cache i [] d = or_else-none (lookup name d.hash)
lookup-add_names name cache i (n ∷ names) d =
    let e : Located = record { cache = cache; full_name = n; index = i } in
    lookup-add_names name cache (i + 1) names (add_name e d)
    ∙ ap (λ o. or_else o (first_named cache (i + 1) names name)) (lookup-add_name name e d)
    ∙ or_else_assoc (lookup name d.hash) (if same_text n name then some e else none)
        (first_named cache (i + 1) names name)
    ∙ ap (or_else (lookup name d.hash))
        (choose (same_text n name) e (first_named cache (i + 1) names name))
  where
    choose :
        (b : Bool) (e : Located) (o : Option Located)
        → or_else (if b then some e else none) o ≡ (if b then some e else o)
    choose true e o = refl
    choose false e o = refl

-- The sorted table and the hash table find the same.
unfoldable pub IsAgreed : Directories → Type 0
IsAgreed d = (name : List ℕ) → lookup name d.table ≡ lookup name d.hash

add_name-IsAgreed : (e : Located) (d : Directories) → IsAgreed d → IsAgreed (add_name e d)
unfolding IsAgreed lookup
add_name-IsAgreed e d h name = elim (Option-cases (lookup e.full_name d.hash)) [
  | inl g ↦ rw (add_name_new e d g) (
      lookup-append name d.table (e ∷ [])
      ∙ ap (λ o. or_else o (if same_text e.full_name name then some e else none)) (h name)
      ∙ sym (lookup_new name e d.hash g))
  | inr (old, g) ↦ rw (add_name_old e old d g) (h name)
]

add_names-IsAgreed :
    (cache i : ℕ) (names : List (List ℕ)) (d : Directories)
    → IsAgreed d
    → IsAgreed (add_names cache i names d)
unfolding add_names
add_names-IsAgreed cache i [] d h = h
add_names-IsAgreed cache i (n ∷ names) d h =
    add_names-IsAgreed cache (i + 1) names _ (add_name-IsAgreed _ d h)

-- If the sorted table and the hash table find the same entry for every name, they do so after
-- another cache is mounted, and the table is then in the order of `strcmp`.
pub build_global_directory_table-IsAgreed :
    (cache : ℕ) (names : List (List ℕ)) (d : Directories)
    → IsAgreed d
    → IsAgreed (build_global_directory_table cache names d)
      × IsOrdered (build_global_directory_table cache names d).table
unfolding build_global_directory_table IsAgreed
build_global_directory_table-IsAgreed cache names d h =
    let d' = add_names cache 1 names d in
    (
      λ name. lookup-sort name d'.table ∙ add_names-IsAgreed cache 1 names d h name,
      sort-IsOrdered d'.table,
    )

-- After a cache is mounted a name is found where it was found before, and otherwise at the cache's
-- first item of that name.
pub lookup-build_global_directory_table :
    (name : List ℕ) (cache : ℕ) (names : List (List ℕ)) (d : Directories)
    → lookup name (build_global_directory_table cache names d).hash
      ≡ or_else (lookup name d.hash) (first_named cache 1 names name)
unfolding build_global_directory_table
lookup-build_global_directory_table name cache names d = lookup-add_names name cache 1 names d
