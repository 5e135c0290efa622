-- ===== src/Cache/Outcome.antt =====
-- The outcome of a loop that indexes arrays of a file's own making: `fault` stands for an access
-- outside an array or a division by 0, and `out_of_fuel` has no counterpart in the program.
use mathlib.Core.Path.{◌≡◌, refl}
use mathlib.Core.Option.{Option, none, some}

pub data Outcome {ℓ} (A : Type ℓ) : Type ℓ where
  done : A → Outcome A
  fault out_of_fuel : Outcome A

infixl 5 ◌>>=◌
abbrev pub ◌>>=◌ {ℓ κ} : {A : Type ℓ} {B : Type κ} → Outcome A → (A → Outcome B) → Outcome B
done a >>= f = f a
fault >>= f = fault
out_of_fuel >>= f = out_of_fuel

-- An array access.
abbrev pub found {ℓ} : {A : Type ℓ} → Option A → Outcome A
found none = fault
found (some a) = done a

-- A bind that returns has had a first part that returned.
pub >>=-done {ℓ κ} :
    {A : Type ℓ} {B : Type κ} (m : Outcome A) (f : A → Outcome B) {b : B}
    → (m >>= f) ≡ done b
    → (a : A) × (m ≡ done a) × (f a ≡ done b)
>>=-done (done a) f e = (a, refl, e)
>>=-done fault f e = absurd cc
>>=-done out_of_fuel f e = absurd cc

pub found-done {ℓ} : {A : Type ℓ} (o : Option A) {a : A} → found o ≡ done a → o ≡ some a
found-done none e = absurd cc
found-done (some b) e = cc

pub >>=-assoc {ℓ κ μ} :
    {A : Type ℓ} {B : Type κ} {C : Type μ} (m : Outcome A) (f : A → Outcome B) (g : B → Outcome C)
    → ((m >>= f) >>= g) ≡ (m >>= λ a. f a >>= g)
>>=-assoc (done a) f g = refl
>>=-assoc fault f g = refl
>>=-assoc out_of_fuel f g = refl

-- Binds that go on in the same way are the same.
pub >>=-cong {ℓ κ} :
    {A : Type ℓ} {B : Type κ} (m : Outcome A) (f g : A → Outcome B)
    → ((a : A) → f a ≡ g a)
    → (m >>= f) ≡ (m >>= g)
>>=-cong (done a) f g h = h a
>>=-cong fault f g h = refl
>>=-cong out_of_fuel f g h = refl
