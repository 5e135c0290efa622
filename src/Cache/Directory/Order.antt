-- ===== src/Cache/Directory/Order.antt =====
-- `std::sort` on the table of names.
use revive_emu.Base.{
  ℕ, true, false, some, List, [], ◌∷◌, if◌then◌else◌, ◌≡◌, refl, sym, ap, ◌∙◌, arith, Bool-cases,
  inl, inr,
}
use revive_emu.Base.Text.{same_text, same_text_right}
use revive_emu.Cache.Directory.{Located, lookup, text_less, insert_sorted, sort}

less_not_same : (a b : List ℕ) → text_less a b ≡ true → same_text a b ≡ false
unfolding text_less same_text
less_not_same [] [] h = absurd cc
less_not_same [] (y ∷ b) h = refl
less_not_same (x ∷ a) [] h = refl
less_not_same (x ∷ a) (y ∷ b) h = ground (arith, less_not_same a b)

less_asym : (a b : List ℕ) → text_less a b ≡ true → text_less b a ≡ false
unfolding text_less
less_asym [] [] h = refl
less_asym [] (y ∷ b) h = refl
less_asym (x ∷ a) [] h = absurd cc
less_asym (x ∷ a) (y ∷ b) h = ground (arith, less_asym a b)

-- In the order of `strcmp`.
unfoldable pub IsOrdered : List Located → Type 0
IsOrdered [] = Unit
IsOrdered (e ∷ []) = Unit
IsOrdered (e ∷ f ∷ es) = (text_less f.full_name e.full_name ≡ false) × IsOrdered (f ∷ es)

lookup-insert_sorted :
    (name : List ℕ) (e : Located) (es : List Located)
    → lookup name (insert_sorted e es)
      ≡ (if same_text e.full_name name then some e else lookup name es)
unfolding lookup insert_sorted
lookup-insert_sorted name e [] = refl
lookup-insert_sorted name e (f ∷ fs) = elim (Bool-cases (text_less f.full_name e.full_name)) [
  | inr l ↦ rw l refl
  | inl l ↦ rw l (rw (lookup-insert_sorted name e fs) (other name e f fs l))
]
  where
    other :
        (name : List ℕ) (e f : Located) (fs : List Located)
        → text_less f.full_name e.full_name ≡ true
        → (if same_text f.full_name name
            then some f
            else (if same_text e.full_name name then some e else lookup name fs))
          ≡ (if same_text e.full_name name
              then some e
              else (if same_text f.full_name name then some f else lookup name fs))
    other name e f fs l = elim (Bool-cases (same_text e.full_name name)) [
      | inl s ↦
          let apart : same_text f.full_name name ≡ false =
            sym (same_text_right f.full_name e.full_name name s)
            ∙ less_not_same f.full_name e.full_name l in
          rw s (rw apart refl)
      | inr s ↦ rw s refl
    ]

pub lookup-sort : (name : List ℕ) (es : List Located) → lookup name (sort es) ≡ lookup name es
unfolding lookup sort
lookup-sort name [] = refl
lookup-sort name (e ∷ es) =
    lookup-insert_sorted name e (sort es)
    ∙ ap (λ o. if same_text e.full_name name then some e else o) (lookup-sort name es)

insert_sorted-IsOrdered :
    (e : Located) (es : List Located) → IsOrdered es → IsOrdered (insert_sorted e es)
unfolding IsOrdered insert_sorted
insert_sorted-IsOrdered e [] h = tt
insert_sorted-IsOrdered e (f ∷ []) h = elim (Bool-cases (text_less f.full_name e.full_name)) [
  | inl l ↦ rw l (less_asym f.full_name e.full_name l, tt)
  | inr l ↦ rw l (l, tt)
]
insert_sorted-IsOrdered e (f ∷ g ∷ fs) h = elim (Bool-cases (text_less f.full_name e.full_name)) [
  | inl l ↦
      let rest = insert_sorted-IsOrdered e (g ∷ fs) h.1 in
      elim (Bool-cases (text_less g.full_name e.full_name)) [
        | inl m ↦ rw l (rw m (h.0, rw m at rest))
        | inr m ↦ rw l (rw m (less_asym f.full_name e.full_name l, (m, h.1)))
      ]
  | inr l ↦ rw l (l, h)
]

pub sort-IsOrdered : (es : List Located) → IsOrdered (sort es)
unfolding sort IsOrdered
sort-IsOrdered [] = tt
sort-IsOrdered (e ∷ es) = insert_sorted-IsOrdered e (sort es) (sort-IsOrdered es)
