-- ===== src/Base/Bits.antt =====
-- Laws of `|` and `^` on unsigned words at variables: the one-bit recursion that the native
-- operations stand for, `|` of disjoint fields as a sum, and `^` as its own inverse.
use Prim.Native.Nat.{
  ℕ, zero, suc, ◌+◌, ◌-◌, ◌*◌, ◌/◌, ◌%◌, ◌^◌, ◌≤◌, ◌<◌, differ, max, digits, bitwise, bit_or,
  bit_xor, bit_or-bitwise, bit_xor-bitwise,
}
use mathlib.Core.Path.{◌≡◌, refl, ◌∙◌, ap}
use native.Mathlib.Omega.{arith}
use native.Mathlib.Nat.{pow-suc}

module _ (low : ℕ → ℕ) (bit : ℕ → ℕ → ℕ) where
  -- One more unit of fuel changes nothing once the fuel covers the number.
  digits_spare : (n x y : ℕ) → x ≤ n → digits low bit (suc n) x y ≡ digits low bit n x y
  digits_spare zero zero y h = refl
  digits_spare zero (suc x) y h = absurd (omega arith)
  digits_spare (suc n) zero y h = refl
  digits_spare (suc n) (suc x) y h = omega (arith, digits_spare n (suc x / 2) (y / 2) (omega arith))

  digits_enough : (k n m x y : ℕ) → x ≤ n → m ≡ k + n → digits low bit m x y ≡ digits low bit n x y
  digits_enough zero n m x y h e = ap (λ t. digits low bit t x y) (omega arith)
  digits_enough (suc k) n m x y h e =
      let here : m ≡ suc (k + n) = omega arith in
      rw here (digits_spare (k + n) x y (omega arith) ∙ digits_enough k n (k + n) x y h refl)

  bitwise_step :
      (x y : ℕ)
      → bitwise low bit (suc x) y
        ≡ bit (suc x % 2) (y % 2) + 2 * bitwise low bit (suc x / 2) (y / 2)
  bitwise_step x y = omega (
    arith,
    digits_enough (x - suc x / 2) (suc x / 2) x (suc x / 2) (y / 2) (omega arith) (omega arith),
  )

-- The lowest bit of `|` is the larger of the two, and the others follow likewise.
pub bit_or_step : (x y : ℕ) → bit_or x y ≡ max (x % 2) (y % 2) + 2 * bit_or (x / 2) (y / 2)
bit_or_step zero y = simp bit_or-bitwise (omega arith)
bit_or_step (suc x) y = simp bit_or-bitwise (bitwise_step (λ r. r) max x y)

-- A field below `2 ^ k` joined with a word shifted left by `k` is their sum.
pub bit_or_fields : (k r q : ℕ) → r < 2 ^ k → bit_or r (q * 2 ^ k) ≡ r + q * 2 ^ k
bit_or_fields zero zero q h = simp bit_or-bitwise (omega arith)
bit_or_fields zero (suc r) q h = absurd (omega arith)
bit_or_fields (suc k) r q h =
    let twice : q * 2 ^ suc k ≡ 2 * (q * 2 ^ k) =
      omega (arith, ap (λ (t : ℕ). q * t) (pow-suc 2 k)) in
    let halved : 2 * (q * 2 ^ k) / 2 ≡ q * 2 ^ k = omega arith in
    ground (
      arith,
      twice,
      halved,
      bit_or_step r (q * 2 ^ suc k),
      pow-suc 2 k,
      bit_or_fields k (r / 2) q (omega (arith, pow-suc 2 k)),
    )

pub bit_xor_step : (x y : ℕ) → bit_xor x y ≡ differ (x % 2) (y % 2) + 2 * bit_xor (x / 2) (y / 2)
bit_xor_step zero y = simp bit_xor-bitwise (omega arith)
bit_xor_step (suc x) y = simp bit_xor-bitwise (bitwise_step (λ r. r) differ x y)

-- On single bits `differ` is injective in each argument and is a bit.
differ_bit : (a b : ℕ) → a < 2 → b < 2 → differ a b ≡ (a + b) % 2
differ_bit zero zero ha hb = refl
differ_bit zero (suc zero) ha hb = refl
differ_bit zero (suc (suc b)) ha hb = absurd (omega arith)
differ_bit (suc zero) zero ha hb = refl
differ_bit (suc zero) (suc zero) ha hb = refl
differ_bit (suc zero) (suc (suc b)) ha hb = absurd (omega arith)
differ_bit (suc (suc a)) b ha hb = absurd (omega arith)

-- The step with the lowest bit as a sum.
pub bit_xor_sum : (a b : ℕ) → bit_xor a b ≡ bit_xor (a / 2) (b / 2) * 2 + (a % 2 + b % 2) % 2
bit_xor_sum a b =
    omega (arith, bit_xor_step a b, differ_bit (a % 2) (b % 2) (omega arith) (omega arith))

pub bit_xor-lt : (k a b : ℕ) → a < 2 ^ k → b < 2 ^ k → bit_xor a b < 2 ^ k
bit_xor-lt zero zero zero ha hb = omega arith
bit_xor-lt zero zero (suc b) ha hb = absurd (omega arith)
bit_xor-lt zero (suc a) b ha hb = absurd (omega arith)
bit_xor-lt (suc k) a b ha hb =
    omega (
      arith,
      bit_xor_sum a b,
      pow-suc 2 k,
      bit_xor-lt k (a / 2) (b / 2) (omega arith) (omega arith),
    )

-- `^ b` loses nothing of the left word,
pub bit_xor_cancel_right : (k a c b : ℕ) → a < 2 ^ k → c < 2 ^ k → bit_xor a b ≡ bit_xor c b → a ≡ c
bit_xor_cancel_right zero a c b ha hc e = omega arith
bit_xor_cancel_right (suc k) a c b ha hc e = omega (
  arith,
  bit_xor_sum a b,
  bit_xor_sum c b,
  pow-suc 2 k,
  bit_xor_cancel_right k (a / 2) (c / 2) (b / 2) (omega arith) (omega arith)
      (omega (arith, bit_xor_sum a b, bit_xor_sum c b)),
)

-- and `a ^` nothing of the right one.
pub bit_xor_cancel_left : (k a b c : ℕ) → b < 2 ^ k → c < 2 ^ k → bit_xor a b ≡ bit_xor a c → b ≡ c
bit_xor_cancel_left zero a b c hb hc e = omega arith
bit_xor_cancel_left (suc k) a b c hb hc e = omega (
  arith,
  bit_xor_sum a b,
  bit_xor_sum a c,
  pow-suc 2 k,
  bit_xor_cancel_left k (a / 2) (b / 2) (c / 2) (omega arith) (omega arith)
      (omega (arith, bit_xor_sum a b, bit_xor_sum a c)),
)

-- `|` is commutative: the fuel `n` bounds both words.
bit_or_comm_below : (n a b : ℕ) → a ≤ n → b ≤ n → bit_or a b ≡ bit_or b a
bit_or_comm_below zero a b ha hb =
    let za : a ≡ 0 = omega arith in let zb : b ≡ 0 = omega arith in rw (za, zb) refl
bit_or_comm_below (suc n) a b ha hb = omega (
  arith,
  bit_or_step a b,
  bit_or_step b a,
  bit_or_comm_below n (a / 2) (b / 2) (omega arith) (omega arith),
)

pub bit_or_comm : (a b : ℕ) → bit_or a b ≡ bit_or b a
bit_or_comm a b = bit_or_comm_below (a + b) a b (omega arith) (omega arith)

-- The same with the shifted word on the left.
pub bit_or_shifted : (k q r : ℕ) → r < 2 ^ k → bit_or (q * 2 ^ k) r ≡ q * 2 ^ k + r
bit_or_shifted k q r h = omega (arith, bit_or_comm (q * 2 ^ k) r, bit_or_fields k r q h)
