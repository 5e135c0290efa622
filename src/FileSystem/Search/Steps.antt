-- ===== src/FileSystem/Search/Steps.antt =====
-- The run of `SteamFindNext` on an entry, and the files of the disk that `_findnext` comes to.
use revive_emu.Base.{
  ℕ, zero, suc, ◌<◌, Bool, Option, none, some, List, [], ◌∷◌, ◌++◌, if◌then◌else◌, ◌≡◌, refl, ◌∙◌,
  arith, Bool-cases, Option-cases, inl, inr, ◌⊎◌,
}
use revive_emu.Base.Lists.{length}
use revive_emu.Cache.Outcome.{Outcome, done, fault, out_of_fuel, ◌>>=◌}
use revive_emu.Cache.Directory.{Located}
use revive_emu.Cache.Mount.{Manager}
use revive_emu.FileSystem.{Os, FindFileHandle}
use revive_emu.FileSystem.Search.{
  ElementInfo, is_listable, local_element, element_at, find_next_name, find_next_entry,
}

-- What a run answers behind a step.
abbrev pub collect :
    (FindFileHandle → Outcome (List ElementInfo))
    → Option ElementInfo × FindFileHandle
    → Outcome (List ElementInfo)
collect rest (none, f) = done []
collect rest (some x, f) = rest f >>= λ xs. done (x ∷ xs)

module _ (os : Os) where
  -- The elements of a run of `SteamFindNext` on an entry, until it answers -1.
  unfoldable pub rest_of_entry :
      ℕ → Bool → FindFileHandle → Manager → os.World → Outcome (List ElementInfo)
  rest_of_entry zero has_caches f m w = out_of_fuel
  rest_of_entry (suc fuel) has_caches f m w =
      find_next_entry os has_caches f m w >>= collect λ f'. rest_of_entry fuel has_caches f' m w

  -- The files of the disk among the names of a search.
  unfoldable pub local_elements : List ℕ → List (List ℕ) → os.World → List ElementInfo
  local_elements dir [] w = []
  local_elements dir (n ∷ names) w =
      let rest = local_elements dir names w in
      elim (os.stat (os.compose dir n) w) [
        | none ↦ rest
        | some status ↦ if is_listable status then local_element n status ∷ rest else rest
      ]

  -- `_findnext` has no more, or answers the first of them.
  unfoldable pub HasNext : List ℕ → List (List ℕ) → os.World → Type 0
  HasNext dir names w =
      ((find_next_name os dir names w ≡ (none, [])) × (local_elements dir names w ≡ []))
      ⊎ ((e : ElementInfo) × (rest : List (List ℕ)) × (find_next_name os dir names w
            ≡ (some e, rest))
          × (local_elements dir names w ≡ e ∷ local_elements dir rest w)
          × (length rest < length names))

  skip-HasNext :
      (dir n : List ℕ) (names : List (List ℕ)) (w : os.World)
      → find_next_name os dir (n ∷ names) w ≡ find_next_name os dir names w
      → local_elements dir (n ∷ names) w ≡ local_elements dir names w
      → HasNext dir names w
      → HasNext dir (n ∷ names) w
  unfolding HasNext
  skip-HasNext dir n names w a b (inl (h, k)) = inl (a ∙ h, b ∙ k)
  skip-HasNext dir n names w a b (inr (e, rest, h, k, l)) = inr (e, rest, a ∙ h, b ∙ k, omega arith)

  pub names-HasNext : (dir : List ℕ) (names : List (List ℕ)) (w : os.World) → HasNext dir names w
  unfolding find_next_name local_elements HasNext
  names-HasNext dir [] w = inl (refl, refl)
  names-HasNext dir (n ∷ names) w = elim (Option-cases (os.stat (os.compose dir n) w)) [
    | inl missing ↦
        skip-HasNext dir n names w (rw (missing, find_next_name) refl)
          (rw (missing, local_elements) refl) (names-HasNext dir names w)
    | inr (status, there) ↦ elim (Bool-cases (is_listable status)) [
      | inl listed ↦ inr (
        local_element n status,
        names,
        rw (there, find_next_name) (rw listed refl),
        rw (there, local_elements) (rw listed refl),
        omega arith,
      )
      | inr other ↦
          skip-HasNext dir n names w (rw (there, find_next_name) (rw other refl))
            (rw (there, local_elements) (rw other refl)) (names-HasNext dir names w)
    ]
  ]

-- What items of the caches are told as, one after another.
unfoldable pub elements_of : Manager → List Located → Outcome (List ElementInfo)
elements_of m [] = done []
elements_of m (e ∷ es) = element_at m e >>= λ x. elements_of m es >>= λ xs. done (x ∷ xs)

pub append_none : (m : Outcome (List ElementInfo)) → (m >>= λ xs. done ([] ++ xs)) ≡ m
append_none (done xs) = refl
append_none fault = refl
append_none out_of_fuel = refl
