-- ===== src/Cache/Mask/Star.antt =====
-- What a mask that ends in its only wildcard, a `*`, matches.
use revive_emu.Base.{
  ℕ, Bool, true, false, not, ◌&&◌, ◌||◌, List, [], ◌∷◌, ◌++◌, ◌==◌, ◌≡◌, refl, arith,
}
use revive_emu.Base.Text.{same_text}
use revive_emu.Cache.Mask.{star, question, dot, backslash, skip, drop_if, is_empty, is_matching}

-- A mask in which each byte stands for itself.
unfoldable pub is_plain : List ℕ → Bool
is_plain [] = true
is_plain (c ∷ m) = let rest = is_plain m in not (c == star) && (not (c == question) && rest)

unfoldable pub has : ℕ → List ℕ → Bool
has c [] = false
has c (x ∷ s) = let rest = has c s in x == c || rest

-- Whether a string starts with a text, and its rest has no backslash.
unfoldable pub is_below : List ℕ → List ℕ → Bool
is_below s [] = not (has backslash s)
is_below [] (c ∷ m) = false
is_below (x ∷ s) (c ∷ m) = let rest = is_below s m in x == c && rest

skip_end : (s : List ℕ) → is_empty (skip s []) ≡ not (has backslash s)
unfolding skip has
skip_end [] = refl
skip_end (x ∷ s) = ground (arith, skip_end s)

matching_last : (s : List ℕ) → is_matching s (star ∷ []) ≡ not (has backslash s)
unfolding is_matching has
matching_last [] = refl
matching_last (x ∷ s) = skip_end (x ∷ s)

-- A mask whose only wildcard is a star at its end matches exactly the names that start with the
-- text before the star and have no backslash behind it, and that text without a dot at its end.
pub is_matching_prefix :
    (s m : List ℕ)
    → is_plain m ≡ true
    → is_matching s (m ++ star ∷ []) ≡ is_below s m || same_text (s ++ dot ∷ []) m
unfolding is_matching is_plain is_below same_text drop_if has
is_matching_prefix [] [] h = matching_last []
is_matching_prefix (x ∷ s) [] h = ground (arith, matching_last (x ∷ s))
is_matching_prefix [] (c ∷ []) h = ground arith
is_matching_prefix [] (c ∷ d ∷ m) h = ground arith
is_matching_prefix (x ∷ s) (c ∷ m) h = ground (arith, is_matching_prefix s m)
