-- ===== src/Base/Text.antt =====
-- C strings as lists of the bytes before the first NUL.
use Prim.Native.Nat.{ℕ}
use mathlib.Core.Path.{◌≡◌, refl, ap}
use mathlib.Core.Bool.{Bool, true, false, ◌&&◌}
use mathlib.Core.List.{List, [], ◌∷◌}
use native.Mathlib.Omega.{arith}
use revive_emu.Base.Tests.{◌==◌}

-- `strcmp(a, b) == 0`
unfoldable pub same_text : List ℕ → List ℕ → Bool
same_text [] [] = true
same_text (x ∷ a) (y ∷ b) = let rest = same_text a b in x == y && rest
same_text _ _ = false

pub same_text_refl : (a : List ℕ) → same_text a a ≡ true
unfolding same_text
same_text_refl [] = refl
same_text_refl (x ∷ a) = ground (arith, same_text_refl a)

pub same_text_eq : (a b : List ℕ) → same_text a b ≡ true → a ≡ b
unfolding same_text
same_text_eq [] [] e = refl
same_text_eq [] (y ∷ b) e = absurd cc
same_text_eq (x ∷ a) [] e = absurd cc
same_text_eq (x ∷ a) (y ∷ b) e = ground (arith, same_text_eq a b)

pub same_text_left : (a b c : List ℕ) → same_text a b ≡ true → same_text a c ≡ same_text b c
same_text_left a b c e = ap (λ (t : List ℕ). same_text t c) (same_text_eq a b e)

pub same_text_right : (a b c : List ℕ) → same_text b c ≡ true → same_text a b ≡ same_text a c
same_text_right a b c e = ap (same_text a) (same_text_eq b c e)
