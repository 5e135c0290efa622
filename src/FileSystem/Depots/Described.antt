-- ===== src/FileSystem/Depots/Described.antt =====
-- What the look-ups and the texts of `ParseAppDependencies` give, said without their loops.
use mathlib.Core.List.{append-nil, append_assoc}
use revive_emu.Base.{
  ℕ, Bool, true, false, ◌&&◌, Option, none, some, List, [], ◌∷◌, ◌++◌, ◌==◌, ltb, map,
  if◌then◌else◌, ◌≡◌, refl, sym, ap, ◌∙◌, arith, Bool-cases, Option-cases, inl, inr,
}
use revive_emu.Base.Lists.{length, take, keep}
use revive_emu.FileSystem.Depots.{
  Library, App, AppFilesystem, Dependency, dependency, get_app_record, get_app_id_from_name,
  user_defined_value, user_defined_info, hd_addon, add_extra_depots, language_depots, os_tokens,
  host_os, has_host, is_for_host,
}

abbrev pub first {ℓ} : {A : Type ℓ} → List A → Option A
first [] = none
first (x ∷ xs) = some x

-- The first application with an id, and the first value of a key that has room in 31 characters.
abbrev pub app_with : ℕ → List App → Option App
app_with id apps = first (keep (λ (a : App). id == a.app_id) apps)

abbrev pub value_of : Library → List ℕ → List (List ℕ × List ℕ) → Option (List ℕ)
value_of l key records = first (
    map (λ (r : List ℕ × List ℕ). r.1)
      (keep (λ (r : List ℕ × List ℕ). l.same_ignoring_case key r.0 && ltb (length r.1) 32) records))

pub get_app_record-app_with : (id : ℕ) (apps : List App) → get_app_record id apps ≡ app_with id apps
unfolding get_app_record
get_app_record-app_with id [] = refl
get_app_record-app_with id (a ∷ apps) = ground (arith, get_app_record-app_with id apps)

pub user_defined_value_lem :
    (l : Library) (key : List ℕ) (records : List (List ℕ × List ℕ))
    → user_defined_value l key records ≡ value_of l key records
unfolding user_defined_value
user_defined_value_lem l key [] = refl
user_defined_value_lem l key ((k, v) ∷ records) =
    ground (arith, user_defined_value_lem l key records)

-- The optional cache of an application: the number that its value for "hdaddon" begins with.
abbrev addons : Library → Option (List ℕ) → List Dependency
addons l none = []
addons l (some v) = dependency (l.atoi v) [] false ∷ []

abbrev pub optional_depots : Library → App → List Dependency
optional_depots l a = addons l (value_of l hd_addon a.user_defined)

user_defined_info_lem :
    (l : Library) (apps : List App) (id : ℕ) (key : List ℕ) (a : App)
    → app_with id apps ≡ some a
    → user_defined_info l id key apps ≡ value_of l key a.user_defined
unfolding user_defined_info
user_defined_info_lem l apps id key a e =
    rw (get_app_record-app_with id apps ∙ e, user_defined_info)
      (user_defined_value_lem l key a.user_defined)

pub add_extra_depots_lem :
    (l : Library) (apps : List App) (id : ℕ) (a : App)
    → app_with id apps ≡ some a
    → add_extra_depots l apps id [] ≡ optional_depots l a
unfolding add_extra_depots
add_extra_depots_lem l apps id a e =
    let found = user_defined_info_lem l apps id hd_addon a e in
    elim (Option-cases (value_of l hd_addon a.user_defined)) [
      | inl n ↦ rw (found ∙ n, add_extra_depots) (sym (ap (addons l) n))
      | inr (v, n) ↦ rw (found ∙ n, add_extra_depots) (sym (ap (addons l) n))
    ]

-- The localization caches of an application: that of the first application with its name and the
-- language's, after 235 if it is 232, and none if that has the number that stands for no
-- application.
abbrev localized : ℕ → List ℕ
localized n = if n == 0xFFFFFFFF then [] else if n == 232 then 235 ∷ 232 ∷ [] else n ∷ []

abbrev localizations : Option App → List Dependency
localizations none = []
localizations (some b) = map (λ n. dependency n [] false) (localized b.app_id)

abbrev pub app_named : Library → List ℕ → List App → Option App
app_named l name apps = first (keep (λ (b : App). l.same_ignoring_case name b.name) apps)

abbrev pub localization_depots : Library → List App → App → List Dependency
localization_depots l apps a = localizations (app_named l (a.name ++ 0x20 ∷ l.language) apps)

abbrev named_or_none : Option App → ℕ
named_or_none none = 0xFFFFFFFF
named_or_none (some b) = b.app_id

get_app_id_from_name_lem :
    (l : Library) (name : List ℕ) (apps : List App)
    → get_app_id_from_name l name apps ≡ named_or_none (app_named l name apps)
unfolding get_app_id_from_name
get_app_id_from_name_lem l name [] = refl
get_app_id_from_name_lem l name (a ∷ apps) = ground (arith, get_app_id_from_name_lem l name apps)

pub language_depots_lem :
    (l : Library) (apps : List App) (a : App)
    → language_depots l apps a ≡ localization_depots l apps a
unfolding language_depots
language_depots_lem l apps a =
    let name = a.name ++ 0x20 ∷ l.language in
    let number = get_app_id_from_name_lem l name apps in
    elim (Option-cases (app_named l name apps)) [
      | inl n ↦ rw (number ∙ ap named_or_none n, language_depots) (sym (ap localizations n))
      | inr (b, n) ↦
          rw (number ∙ ap named_or_none n, language_depots)
            (here b.app_id ∙ sym (ap localizations n))
    ]
  where
    here :
        (n : ℕ)
        → (if n == 0xFFFFFFFF
            then []
            else (if n == 232
                then dependency 235 [] false ∷ dependency n [] false ∷ []
                else dependency n [] false ∷ []))
          ≡ map (λ m. dependency m [] false) (localized n)
    here n = ground arith

-- The parts of a text between its commas, and those of them that are not empty.
abbrev onto : List ℕ → List (List ℕ) → List (List ℕ)
onto part [] = []
onto part (p ∷ ps) = (part ++ p) ∷ ps

abbrev pub comma_parts : List ℕ → List (List ℕ)
comma_parts [] = [] ∷ []
comma_parts (c ∷ text) =
    if c == 0x2C then [] ∷ comma_parts text else onto (c ∷ []) (comma_parts text)

abbrev is_named : List ℕ → Bool
is_named [] = false
is_named (c ∷ cs) = true

onto-nothing : (ps : List (List ℕ)) → onto [] ps ≡ ps
onto-nothing [] = refl
onto-nothing (p ∷ ps) = refl

onto_twice :
    (part : List ℕ) (c : ℕ) (ps : List (List ℕ))
    → onto (part ++ c ∷ []) ps ≡ onto part (onto (c ∷ []) ps)
onto_twice part c [] = refl
onto_twice part c (p ∷ ps) = ap (λ r. r ∷ ps) (append_assoc part (c ∷ []) p)

os_tokens-comma_parts :
    (part text : List ℕ) → os_tokens part text ≡ keep is_named (onto part (comma_parts text))
unfolding os_tokens
os_tokens-comma_parts [] [] = refl
os_tokens-comma_parts (c ∷ part) [] = ap (λ r. (c ∷ r) ∷ []) (sym (append-nil part))
os_tokens-comma_parts [] (d ∷ text) = elim (Bool-cases (d == 0x2C)) [
  | inl comma ↦
      rw (comma, os_tokens)
        (os_tokens-comma_parts [] text ∙ ap (keep is_named) (onto-nothing (comma_parts text)))
  | inr other ↦
      rw (other, os_tokens)
        (os_tokens-comma_parts (d ∷ []) text
          ∙ ap (keep is_named) (onto_twice [] d (comma_parts text)))
]
os_tokens-comma_parts (c ∷ part) (d ∷ text) = elim (Bool-cases (d == 0x2C)) [
  | inl comma ↦
      rw (comma, os_tokens)
        (ap (λ r. (c ∷ part) ∷ r)
            (os_tokens-comma_parts [] text ∙ ap (keep is_named) (onto-nothing (comma_parts text)))
          ∙ ap (λ r. (c ∷ r) ∷ keep is_named (comma_parts text)) (sym (append-nil part)))
  | inr other ↦
      rw (other, os_tokens)
        (os_tokens-comma_parts (c ∷ part ++ d ∷ []) text
          ∙ ap (keep is_named) (onto_twice (c ∷ part) d (comma_parts text)))
]

-- A file system is for this system if it has no list, or a part of the first 63 characters of its
-- list that is not empty reads "linux".
abbrev is_some {ℓ} : {A : Type ℓ} → Option A → Bool
is_some none = false
is_some (some x) = true

abbrev pub suits : Library → Option (List ℕ) → Bool
suits l none = true
suits l (some list) = is_some (
    first (keep (λ t. l.same_ignoring_case t host_os) (keep is_named (comma_parts (take 63 list)))))

has_host_lem :
    (l : Library) (parts : List (List ℕ))
    → has_host l parts ≡ is_some (first (keep (λ t. l.same_ignoring_case t host_os) parts))
unfolding has_host
has_host_lem l [] = refl
has_host_lem l (t ∷ parts) = ground (arith, has_host_lem l parts)

pub is_for_host_lem :
    (l : Library) (fs : AppFilesystem) → is_for_host l fs ≡ suits l fs.valid_os_list
unfolding is_for_host
is_for_host_lem l fs = elim (Option-cases fs.valid_os_list) [
  | inl n ↦ rw (n, is_for_host) refl
  | inr (list, n) ↦
      rw (n, is_for_host)
        (has_host_lem l (os_tokens [] (take 63 list))
          ∙ ap (λ parts. is_some (first (keep (λ t. l.same_ignoring_case t host_os) parts)))
              (os_tokens-comma_parts [] (take 63 list)
                ∙ ap (keep is_named) (onto-nothing (comma_parts (take 63 list)))))
]

-- The caches of the file systems that are for this operating system.
abbrev pub filesystem_depots : Library → List AppFilesystem → List Dependency
filesystem_depots l fss =
    map (λ (fs : AppFilesystem). dependency fs.app_id fs.mount_name true)
      (keep (λ (fs : AppFilesystem). suits l fs.valid_os_list) fss)
