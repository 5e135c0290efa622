-- ===== src/MasterServer/Occurrence.antt =====
-- The loops on the array, on lists: the search for a text, the write of a place and the shift.
use native.Mathlib.Numerals.{unary_clauses}
use revive_emu.Base.{
  ℕ, zero, suc, ◌+◌, ◌-◌, ◌≤◌, ◌<◌, ◌≡◌, ◌⊎◌, inl, inr, refl, ◌∙◌, ap, Bool, true, false, ◌||◌,
  none, some, List, [], ◌∷◌, ◌++◌, if◌then◌else◌, Bool-cases, arith,
}
use revive_emu.Base.Text.{same_text}
use revive_emu.Base.Lists.{length, take}
use revive_emu.MasterServer.{find_master_server, set_elem, elem_at, shift_loop}

-- Whether a list holds an address, and the list without its first occurrence.
abbrev pub contains : List ℕ → List (List ℕ) → Bool
contains a [] = false
contains a (s ∷ l) = same_text s a || contains a l

abbrev pub erase_first : List ℕ → List (List ℕ) → List (List ℕ)
erase_first a [] = []
erase_first a (s ∷ l) = let rest = erase_first a l in if same_text s a then l else s ∷ rest

pub delete_at : ℕ → List (List ℕ) → List (List ℕ)
delete_at i [] = []
delete_at zero (s ∷ l) = l
delete_at (suc i) (s ∷ l) = s ∷ delete_at i l

pub length-set_elem : (i : ℕ) (x : List ℕ) (l : List (List ℕ)) → length (set_elem i x l) ≡ length l
unfolding set_elem
length-set_elem i x [] = refl
length-set_elem zero x (s ∷ l) = refl
length-set_elem (suc i) x (s ∷ l) = ground (arith, length-set_elem i x l)

pub take-set_elem : (n : ℕ) (x : List ℕ) (l : List (List ℕ)) → take n (set_elem n x l) ≡ take n l
unfolding set_elem
take-set_elem zero x l = refl
take-set_elem (suc n) x [] = refl
take-set_elem (suc n) x (s ∷ l) = ap (◌∷◌ s) (take-set_elem n x l)

pub take-suc-set_elem :
    (n : ℕ) (x : List ℕ) (l : List (List ℕ))
    → n < length l
    → take (suc n) (set_elem n x l) ≡ take n l ++ x ∷ []
unfolding set_elem
take-suc-set_elem n x [] h = absurd (omega arith)
take-suc-set_elem zero x (s ∷ l) h = refl
take-suc-set_elem (suc n) x (s ∷ l) h = ap (◌∷◌ s) (take-suc-set_elem n x l (omega arith))

pub elem_at-set_elem :
    (n : ℕ) (x : List ℕ) (l : List (List ℕ)) → n < length l → elem_at n (set_elem n x l) ≡ x
unfolding set_elem elem_at
elem_at-set_elem n x [] h = absurd (omega arith)
elem_at-set_elem zero x (s ∷ l) h = refl
elem_at-set_elem (suc n) x (s ∷ l) h = elem_at-set_elem n x l (omega arith)

-- A round of the loop behind the first element leaves that element alone.
pub shift_loop-cons :
    (n i : ℕ) (s : List ℕ) (l : List (List ℕ))
    → shift_loop n (suc (suc i)) (s ∷ l) ≡ s ∷ shift_loop n (suc i) l
unfolding shift_loop set_elem elem_at
shift_loop-cons zero i s l = refl
shift_loop-cons (suc n) i s l =
    simp unary_clauses (shift_loop-cons n (suc i) s (set_elem i (elem_at (suc i) l) l))

pub shift_front :
    (n : ℕ) (s : List ℕ) (l : List (List ℕ))
    → n ≤ length l
    → take n (shift_loop n 1 (s ∷ l)) ≡ take n l
unfolding shift_loop set_elem elem_at
shift_front zero s l h = refl
shift_front (suc n) s [] h = absurd (omega arith)
shift_front (suc n) s (t ∷ l) h =
    ap (take (suc n)) (shift_loop-cons n 0 t (t ∷ l)) ∙ ap (◌∷◌ t) (shift_front n t l (omega arith))

pub shift_deletes :
    (pos n m : ℕ) (l : List (List ℕ))
    → m ≡ pos + n
    → m < length l
    → take m (shift_loop n (suc pos) l) ≡ delete_at pos (take (suc m) l)
unfolding delete_at
shift_deletes pos n m [] e h = absurd (omega arith)
shift_deletes zero n m (s ∷ l) e h =
    let all : m ≡ n = omega arith in rw all (shift_front n s l (omega arith))
shift_deletes (suc pos) n zero (s ∷ l) e h = absurd (omega arith)
shift_deletes (suc pos) n (suc m) (s ∷ l) e h =
    ap (take (suc m)) (shift_loop-cons n pos s l)
    ∙ ap (◌∷◌ s) (shift_deletes pos n m l (omega arith) (omega arith))

pub length-shift_loop : (n i : ℕ) (l : List (List ℕ)) → length (shift_loop n i l) ≡ length l
unfolding shift_loop
length-shift_loop zero i l = refl
length-shift_loop (suc n) i l =
    length-shift_loop n (suc i) (set_elem (i - 1) (elem_at i l) l)
    ∙ length-set_elem (i - 1) (elem_at i l) l

pub erase_first_absent :
    (a : List ℕ) (l : List (List ℕ)) → contains a l ≡ false → erase_first a l ≡ l
erase_first_absent a [] h = refl
erase_first_absent a (s ∷ l) h = ground (arith, erase_first_absent a l)

-- The search finds the first occurrence among the counted elements, or there is none.
pub find_cases :
    (a : List ℕ) (n : ℕ) (l : List (List ℕ))
    → ((find_master_server a n l ≡ none) × (contains a (take n l) ≡ false))
      ⊎ ((pos : ℕ) × (find_master_server a n l ≡ some pos)
          × (contains a (take n l) ≡ true)
          × (pos < n)
          × (erase_first a (take n l) ≡ delete_at pos (take n l)))
unfolding find_master_server delete_at
find_cases a zero l = inl (refl, refl)
find_cases a (suc n) [] = inl (refl, refl)
find_cases a (suc n) (s ∷ l) = elim (Bool-cases (same_text s a)) [
  | inl same ↦ inr (0, ground arith, ground arith, omega arith, ground arith)
  | inr other ↦ elim (find_cases a n l) [
    | inl (absent, c) ↦ inl (ground arith, ground arith)
    | inr (pos, found, c, h, e) ↦
        inr (suc pos, ground arith, ground arith, omega arith, ground arith)
  ]
]
