-- ===== src/Blob/Held.antt =====
-- Bytes that stand in memory, and what the reader's fields find there.
use revive_emu.Base.{
  ℕ, zero, suc, ◌+◌, ◌/◌, ◌^◌, ◌<◌, true, ltb, List, [], ◌∷◌, ◌++◌, ◌≡◌, refl, ap, subst, arith,
}
use revive_emu.Base.Bytes.{Memory, u32_mod}
use revive_emu.Base.Lists.{length, length-append}
use revive_emu.Base.Read.{read_le, read_bytes}
use revive_emu.Blob.{magic, data_length, null_padding, descriptor_type, name_length, node_magic_num}
use revive_emu.Cache.Outcome.{done}
use revive_emu.Blob.Print.{write_le, write_header, write_descriptor, write_name}
use native.Mathlib.Nat.{pow-suc}

-- The bytes `bs` stand in memory from `i` on.
unfoldable pub IsHeld : Memory → ℕ → List ℕ → Type 0
IsHeld p i [] = Unit
IsHeld p i (b ∷ bs) = (p i ≡ b) × IsHeld p (i + 1) bs

pub IsHeld-first : (p : Memory) (i : ℕ) (xs ys : List ℕ) → IsHeld p i (xs ++ ys) → IsHeld p i xs
unfolding IsHeld
IsHeld-first p i [] ys h = tt
IsHeld-first p i (x ∷ xs) ys h = (h.0, IsHeld-first p (i + 1) xs ys h.1)

IsHeld-next :
    (p : Memory) (i : ℕ) (xs ys : List ℕ) → IsHeld p i (xs ++ ys) → IsHeld p (i + length xs) ys
unfolding IsHeld
IsHeld-next p i [] ys h = let here : i ≡ i + 0 = omega arith in subst (λ k. IsHeld p k ys) here h
IsHeld-next p i (x ∷ xs) ys h =
    let there : i + 1 + length xs ≡ i + suc (length xs) = omega arith in
    subst (λ k. IsHeld p k ys) there (IsHeld-next p (i + 1) xs ys h.1)

-- What follows `n` bytes.
pub IsHeld-after :
    (p : Memory) (i n k : ℕ) (xs ys : List ℕ)
    → length xs ≡ n
    → i + n ≡ k
    → IsHeld p i (xs ++ ys)
    → IsHeld p k ys
IsHeld-after p i n k xs ys e f h =
    let there : i + length xs ≡ k = omega arith in
    subst (λ t. IsHeld p t ys) there (IsHeld-next p i xs ys h)

pub length-write_le : (n x : ℕ) → length (write_le n x) ≡ n
unfolding write_le
length-write_le zero x = refl
length-write_le (suc n) x = omega (arith, length-write_le n (x / 256))

pub read_le-write_le :
    (p : Memory) (i n x : ℕ) → x < 256 ^ n → IsHeld p i (write_le n x) → read_le n p i ≡ x
unfolding read_le write_le IsHeld
read_le-write_le p i zero x l h = omega arith
read_le-write_le p i (suc n) x l h = omega (
  arith,
  pow-suc 256 n,
  h.0,
  read_le-write_le p (i + 1) n (x / 256) (omega (arith, pow-suc 256 n)) h.1,
)

pub read_bytes-IsHeld :
    (p : Memory) (i : ℕ) (bs : List ℕ) → IsHeld p i bs → read_bytes p i (length bs) ≡ bs
unfolding read_bytes IsHeld
read_bytes-IsHeld p i [] h = refl
read_bytes-IsHeld p i (b ∷ bs) h = rw h.0 (ap (λ t. b ∷ t) (read_bytes-IsHeld p (i + 1) bs h.1))

pub word-IsHeld :
    (p : Memory) (i n x : ℕ) (ys : List ℕ)
    → x < 256 ^ n
    → IsHeld p i (write_le n x ++ ys)
    → read_le n p i ≡ x
word-IsHeld p i n x ys l h = read_le-write_le p i n x l (IsHeld-first p i (write_le n x) ys h)

-- Three fields of 2, 4 and 4 bytes.
fields-IsHeld :
    (p : Memory) (i a b c : ℕ) (ys : List ℕ)
    → a < 2 ^ 16
    → c < u32_mod
    → IsHeld p i ((write_le 2 a ++ (write_le 4 b ++ write_le 4 c)) ++ ys)
    → (read_le 2 p i ≡ a)
      × (b < u32_mod → read_le 4 p (i + 2) ≡ b)
      × (read_le 4 p (i + 6) ≡ c)
      × IsHeld p (i + 10) ys
fields-IsHeld p i a b c ys la lc h =
    let all = write_le 2 a ++ (write_le 4 b ++ write_le 4 c) in
    let parts = IsHeld-first p i all ys h in
    let second =
      IsHeld-after p i 2 (i + 2) (write_le 2 a) (write_le 4 b ++ write_le 4 c) (length-write_le 2 a)
        refl parts in
    let third =
      IsHeld-after p (i + 2) 4 (i + 6) (write_le 4 b) (write_le 4 c) (length-write_le 4 b)
        (omega arith) second in
    let size : length all ≡ 10 = omega (
      arith,
      length-append (write_le 2 a) (write_le 4 b ++ write_le 4 c),
      length-append (write_le 4 b) (write_le 4 c),
      length-write_le 2 a,
      length-write_le 4 b,
      length-write_le 4 c,
    ) in
    (
      word-IsHeld p i 2 a (write_le 4 b ++ write_le 4 c) la parts,
      λ lb. word-IsHeld p (i + 2) 4 b (write_le 4 c) lb second,
      read_le-write_le p (i + 6) 4 c lc third,
      IsHeld-after p i 10 (i + 10) all ys size refl h,
    )

pub header-IsHeld :
    (p : Memory) (i n : ℕ) (ys : List ℕ)
    → IsHeld p i (write_header n ++ ys)
    → (magic p i ≡ node_magic_num)
      × (10 + n < u32_mod → data_length p i ≡ 10 + n)
      × (null_padding p i ≡ 0)
      × IsHeld p (i + 10) ys
unfolding magic data_length null_padding write_header
header-IsHeld p i n ys h =
    fields-IsHeld p i node_magic_num (10 + n) 0 ys (omega arith) (omega arith) h

pub descriptor-IsHeld :
    (p : Memory) (i n type : ℕ) (ys : List ℕ)
    → type < u32_mod
    → IsHeld p i (write_descriptor n type ++ ys)
    → (n < u32_mod → data_length p i ≡ n) × (descriptor_type p i ≡ type) × IsHeld p (i + 10) ys
unfolding data_length descriptor_type write_descriptor
descriptor-IsHeld p i n type ys l h =
    let (first, second, third, rest) = fields-IsHeld p i 4 n type ys (omega arith) l h in
    (second, third, rest)

name_length_lem : (p : Memory) (i n : ℕ) → n < 0x8000 → read_le 2 p i ≡ n → name_length p i ≡ done n
unfolding name_length
name_length_lem p i n l e = let short : ltb n 0x8000 ≡ true = ground arith in rw e (rw short refl)

pub name-IsHeld :
    (p : Memory) (i n : ℕ) (name ys : List ℕ)
    → length name < 0x8000
    → IsHeld p i (write_name name n ++ ys)
    → (name_length p i ≡ done (length name))
      × (read_bytes p (i + 6) (length name) ≡ name)
      × IsHeld p (i + 6 + length name) ys
unfolding write_name
name-IsHeld p i n name ys l h =
    let head = write_le 2 (length name) in
    let middle = write_le 4 n in
    let all = head ++ (middle ++ name) in
    let parts = IsHeld-first p i all ys h in
    let second =
      IsHeld-after p i 2 (i + 2) head (middle ++ name) (length-write_le 2 (length name)) refl
        parts in
    let third =
      IsHeld-after p (i + 2) 4 (i + 6) middle name (length-write_le 4 n) (omega arith) second in
    let size : length all ≡ 6 + length name = omega (
      arith,
      length-append head (middle ++ name),
      length-append middle name,
      length-write_le 2 (length name),
      length-write_le 4 n,
    ) in
    (
      name_length_lem p i (length name) l
          (word-IsHeld p i 2 (length name) (middle ++ name) (omega arith) parts),
      read_bytes-IsHeld p (i + 6) name third,
      IsHeld-after p i (6 + length name) (i + 6 + length name) all ys size (omega arith) h,
    )
