-- ===== src/FileSystem/Depots/Chain.antt =====
-- The caches of an application whose dependencies come to an end.
use mathlib.Core.List.{append-nil, append_assoc}
use revive_emu.Base.{
  ℕ, zero, suc, ◌<◌, true, none, some, List, [], ◌∷◌, ◌++◌, ◌≡◌, refl, sym, ap, ◌∙◌, arith,
  Bool-cases, inl, inr,
}
use revive_emu.Base.Lists.{length}
use revive_emu.Base.Map.{Map, find, insert, find-insert}
use revive_emu.Cache.Outcome.{done, ◌>>=◌}
use revive_emu.FileSystem.Depots.{
  Library, App, AppFilesystem, Dependency, dependency, dependant_on_app, add_extra_language_depots,
  add_filesystems, new_dependencies, parse_app_dependencies,
}
use revive_emu.FileSystem.Depots.Described.{
  app_with, value_of, get_app_record-app_with, user_defined_value_lem, optional_depots,
  add_extra_depots_lem, localization_depots, language_depots_lem, suits, is_for_host_lem,
  filesystem_depots,
}

-- The applications that one depends on, itself first, up to one that depends on none or on one
-- that is not known.
pub data IsChain (l : Library) (apps : List App) : ℕ → List App → Type 0 where
  unknown : {id : ℕ} → app_with id apps ≡ none → IsChain l apps id []
  last :
      {id : ℕ} (a : App)
      → app_with id apps ≡ some a
      → value_of l dependant_on_app a.user_defined ≡ none
      → IsChain l apps id (a ∷ [])
  linked :
      {id : ℕ} (a : App) (v : List ℕ) (rest : List App)
      → app_with id apps ≡ some a
      → value_of l dependant_on_app a.user_defined ≡ some v
      → IsChain l apps (l.atoi v) rest
      → IsChain l apps id (a ∷ rest)

-- The localization caches of applications in order.
abbrev pub all_language_depots : Library → List App → List App → List Dependency
all_language_depots l apps [] = []
all_language_depots l apps (a ∷ more) =
    localization_depots l apps a ++ all_language_depots l apps more

add_extra_language_depots_lem :
    (l : Library) (apps : List App) (fuel id : ℕ) (chain : List App) (depots : List Dependency)
    → IsChain l apps id chain
    → length chain < fuel
    → add_extra_language_depots l apps fuel id depots
      ≡ done (depots ++ all_language_depots l apps chain)
unfolding add_extra_language_depots
add_extra_language_depots_lem l apps zero id chain depots c k = absurd (omega arith)
add_extra_language_depots_lem l apps (suc fuel) id _ depots (unknown e) k =
    rw (get_app_record-app_with id apps ∙ e, add_extra_language_depots)
      (ap done (sym (append-nil depots)))
add_extra_language_depots_lem l apps (suc fuel) id _ depots (last a e n) k =
    rw (get_app_record-app_with id apps ∙ e, add_extra_language_depots)
      (rw (user_defined_value_lem l dependant_on_app a.user_defined ∙ n) (
        ap (λ t. done (depots ++ t))
          (language_depots_lem l apps a ∙ sym (append-nil (localization_depots l apps a)))))
add_extra_language_depots_lem l apps (suc fuel) id _ depots (linked a v rest e n c) k =
    rw (get_app_record-app_with id apps ∙ e, add_extra_language_depots)
      (rw (user_defined_value_lem l dependant_on_app a.user_defined ∙ n) (
        ap (λ t. add_extra_language_depots l apps fuel (l.atoi v) (depots ++ t))
          (language_depots_lem l apps a)
        ∙ add_extra_language_depots_lem l apps fuel (l.atoi v) rest
            (depots ++ localization_depots l apps a) c (omega arith)
        ∙ ap done
            (append_assoc depots (localization_depots l apps a) (all_language_depots l apps rest))))

add_filesystems_lem :
    (l : Library) (fss : List AppFilesystem) (depots : List Dependency)
    → add_filesystems l fss depots ≡ depots ++ filesystem_depots l fss
unfolding add_filesystems
add_filesystems_lem l [] depots = sym (append-nil depots)
add_filesystems_lem l (fs ∷ rest) depots = elim (Bool-cases (suits l fs.valid_os_list)) [
  | inl host ↦ rw (is_for_host_lem l fs ∙ host) (
      rw host (
        add_filesystems_lem l rest (depots ++ dependency fs.app_id fs.mount_name true ∷ [])
        ∙ append_assoc depots (dependency fs.app_id fs.mount_name true ∷ [])
            (filesystem_depots l rest)))
  | inr other ↦ rw (is_for_host_lem l fs ∙ other) (rw other (add_filesystems_lem l rest depots))
]

-- For a known application with file systems that was not asked for before, whose chain of
-- dependencies ends, at an application that depends on none or at one that is not known,
-- `ParseAppDependencies` returns with one level of recursion more than the chain has applications.
-- It stores first the optional cache of the application, if it has a value for "hdaddon" of at
-- most 31 characters; then, for each application of the chain in order, the localization cache
-- that bears its name and the language's, if there is one, with 235 in front of 232; then the
-- caches of those of its file systems that have no list of systems or have "linux" among the parts
-- between the commas of its first 63 characters. Asked again it changes nothing.
pub parse_app_dependencies_lem :
    (l : Library) (apps chain : List App) (fuel id : ℕ) (known : Map (List Dependency)) (a : App)
    (fs : AppFilesystem) (fss : List AppFilesystem)
    → find id known ≡ none
    → app_with id apps ≡ some a
    → a.filesystems ≡ fs ∷ fss
    → IsChain l apps id chain
    → length chain < fuel
    → let depots =
        optional_depots l a
        ++ (all_language_depots l apps chain ++ filesystem_depots l (fs ∷ fss)) in
      let known' = insert id depots known in
      (parse_app_dependencies l apps fuel id known ≡ done known')
      × (parse_app_dependencies l apps fuel id known' ≡ done known')
unfolding parse_app_dependencies new_dependencies
parse_app_dependencies_lem l apps chain fuel id known a fs fss new there filesystems c k =
    let depots =
      optional_depots l a ++ (all_language_depots l apps chain ++ filesystem_depots l (fs ∷ fss)) in
    let kept : find id (insert id depots known) ≡ some depots =
      ground (arith, find-insert id id depots known) in
    (
      rw (new, parse_app_dependencies)
          (rw (get_app_record-app_with id apps ∙ there) (
            ap (λ t. new_dependencies l apps fuel id t known) filesystems
            ∙ ap (λ r. r >>= λ ds. done (insert id (add_filesystems l (fs ∷ fss) ds) known))
                (ap (add_extra_language_depots l apps fuel id)
                    (add_extra_depots_lem l apps id a there)
                  ∙ add_extra_language_depots_lem l apps fuel id chain (optional_depots l a) c k)
            ∙ ap (λ t. done (insert id t known))
                (add_filesystems_lem l (fs ∷ fss)
                    (optional_depots l a ++ all_language_depots l apps chain)
                  ∙ append_assoc (optional_depots l a) (all_language_depots l apps chain)
                      (filesystem_depots l (fs ∷ fss))))),
      rw (kept, parse_app_dependencies) refl,
    )
