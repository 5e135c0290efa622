-- ===== src/Cache/Stream/Slice.antt =====
-- What the sectors of an open file hold in order, and the loops of `ReadBinary` on it.
use revive_emu.Base.{
  ℕ, zero, suc, ◌+◌, ◌-◌, ◌*◌, ◌/◌, ◌%◌, ◌≤◌, ◌<◌, false, none, some, List, [], ◌∷◌, ◌++◌, leb, ◌≡◌,
  refl, sym, ap, ◌∙◌, arith,
}
use revive_emu.Base.Bytes.{Memory, u32_mod}
use revive_emu.Base.Lists.{length, get_elem?, All}
use revive_emu.Base.Read.{read_bytes}
use revive_emu.Cache.Outcome.{done}
use revive_emu.Cache.Stream.{Stream, min, read_at, clip, binary_read_sector}
use native.Mathlib.Nat.{
  mul-add-div_right, mul-add-mod_self_right, div-eq_of_lt, mod-eq_of_lt, div-add-mod',
  div-lt_iff_lt-mul,
}

-- An open file whose sectors cover it and lie in the cache's file.
unfoldable pub IsWhole : Stream → Type 0
IsWhole f =
    (0 < f.physical_sector_size)
    × (f.size + f.physical_sector_size ≤ u32_mod)
    × (f.size ≤ length f.sectors * f.physical_sector_size)
    × All
        (λ s.
          f.first_sector_offset + s * f.physical_sector_size + f.physical_sector_size
          ≤ f.byte_count)
        f.sectors

unfoldable pub sector_of : List ℕ → ℕ → ℕ
sector_of sectors i = elim (get_elem? sectors i) [ none ↦ 0 | some s ↦ s ]

-- Where the byte number `k` of the file stands in the cache's file.
unfoldable pub place : Stream → ℕ → ℕ
place f k =
    f.first_sector_offset
    + sector_of f.sectors (k / f.physical_sector_size) * f.physical_sector_size
    + k % f.physical_sector_size

-- The file's bytes.
unfoldable pub content : Stream → Memory
content f k = f.bytes (place f k)

pub read_bytes_cong :
    (p q : Memory) (i k n : ℕ)
    → ((j : ℕ) → j < n → p (i + j) ≡ q (k + j))
    → read_bytes p i n ≡ read_bytes q k n
unfolding read_bytes
read_bytes_cong p q i k zero h = refl
read_bytes_cong p q i k (suc n) h =
    let head : p i ≡ q k = ap p (omega arith) ∙ h 0 (omega arith) ∙ ap q (omega arith) in
    let shift =
      λ (j : ℕ) (l : j < n). ap p (omega arith) ∙ h (suc j) (omega arith) ∙ ap q (omega arith) in
    rw head (ap (λ t. q k ∷ t) (read_bytes_cong p q (i + 1) (k + 1) n shift))

pub read_bytes-add :
    (p : Memory) (i m n : ℕ) → read_bytes p i (m + n) ≡ read_bytes p i m ++ read_bytes p (i + m) n
unfolding read_bytes
read_bytes-add p i zero n =
    let none_first : 0 + n ≡ n = omega arith in
    let here : i + 0 ≡ i = omega arith in rw none_first (rw here refl)
read_bytes-add p i (suc m) n =
    let longer : suc m + n ≡ suc (m + n) = omega arith in
    let next : i + suc m ≡ i + 1 + m = omega arith in
    rw longer (rw next (ap (λ t. p i ∷ t) (read_bytes-add p (i + 1) m n)))

pub length-read_bytes : (p : Memory) (i n : ℕ) → length (read_bytes p i n) ≡ n
unfolding read_bytes
length-read_bytes p i zero = refl
length-read_bytes p i (suc n) = omega (arith, length-read_bytes p (i + 1) n)

get_elem?-All :
    {P : ℕ → Type 0} (xs : List ℕ) (i : ℕ)
    → i < length xs
    → All P xs
    → (x : ℕ) × (get_elem? xs i ≡ some x) × P x
get_elem?-All [] i h a = absurd (omega arith)
get_elem?-All (x ∷ xs) zero h a = (x, refl, a.0)
get_elem?-All (x ∷ xs) (suc i) h a = get_elem?-All xs i (omega arith) a.1

-- The sector of a byte of the file.
pub sector_found :
    (f : Stream) (k : ℕ)
    → IsWhole f
    → k < f.size
    → (s : ℕ) × (get_elem? f.sectors (k / f.physical_sector_size) ≡ some s)
      × (f.first_sector_offset + s * f.physical_sector_size + f.physical_sector_size ≤ f.byte_count)
unfolding IsWhole
sector_found f k w h =
    get_elem?-All f.sectors (k / f.physical_sector_size)
      ((div-lt_iff_lt-mul w.0).1 (omega (arith, w.2))) w.3

-- Steps within a sector.
pub div_within : (n k j : ℕ) → k % n + j < n → (k + j) / n ≡ k / n
div_within n k j h =
    ap (λ (t : ℕ). t / n) (omega (arith, div-add-mod' k n))
    ∙ mul-add-div_right (omega arith) (k / n) (k % n + j)
    ∙ omega (arith, div-eq_of_lt h)

pub mod_within : (n k j : ℕ) → k % n + j < n → (k + j) % n ≡ k % n + j
mod_within n k j h =
    ap (λ (t : ℕ). t % n) (omega (arith, div-add-mod' k n))
    ∙ mul-add-mod_self_right (k / n) n (k % n + j)
    ∙ mod-eq_of_lt h

sector_of-some : (xs : List ℕ) (i s : ℕ) → get_elem? xs i ≡ some s → sector_of xs i ≡ s
unfolding sector_of
sector_of-some xs i s e = rw (sector_of, e) refl

pub place_within :
    (f : Stream) (k j s : ℕ)
    → k % f.physical_sector_size + j < f.physical_sector_size
    → get_elem? f.sectors (k / f.physical_sector_size) ≡ some s
    → place f (k + j)
      ≡ f.first_sector_offset + s * f.physical_sector_size + k % f.physical_sector_size + j
unfolding place
place_within f k j s h e = rw (div_within f.physical_sector_size k j h) (
    rw (mod_within f.physical_sector_size k j h)
      (rw (sector_of-some f.sectors (k / f.physical_sector_size) s e) (omega arith)))

-- Reading inside a sector gives the file's bytes.
pub read_at-sector :
    (f : Stream) (n s : ℕ)
    → f.position % f.physical_sector_size + n ≤ f.physical_sector_size
    → get_elem? f.sectors (f.position / f.physical_sector_size) ≡ some s
    → f.first_sector_offset + s * f.physical_sector_size + f.physical_sector_size ≤ f.byte_count
    → read_at f
        (f.first_sector_offset + s * f.physical_sector_size + f.position % f.physical_sector_size)
        n
      ≡ read_bytes (content f) f.position n
unfolding read_at content
read_at-sector f n s h e inside =
    let start =
      f.first_sector_offset + s * f.physical_sector_size + f.position % f.physical_sector_size in
    let all : min n (f.byte_count - start) ≡ n = ground arith in
    let step =
      λ (j : ℕ) (l : j < n). ap f.bytes (sym (place_within f f.position j s (omega arith) e)) in
    rw all (read_bytes_cong f.bytes (content f) start f.position n step)

-- The slice that a read of `total` bytes gives, and the handle behind it.
unfoldable pub slice : Stream → ℕ → List ℕ
slice f n = read_bytes (content f) f.position n

unfoldable pub moved : Stream → ℕ → Stream
moved f n = record f { position = f.position + n }

-- What is left of the file behind the handle.
unfoldable pub left_of : Stream → ℕ → ℕ
left_of f total = min total (f.size - f.position)

clip_lem :
    (f : Stream) (n : ℕ)
    → IsWhole f
    → f.position < f.size
    → n ≤ f.physical_sector_size
    → clip f n ≡ left_of f n
unfolding clip IsWhole left_of
clip_lem f n w h k = ground arith

pub left_of_le : (f : Stream) (n : ℕ) → left_of f n ≤ n
unfolding left_of
left_of_le f n = ground arith

-- A round of the loop inside the file.
pub binary_read_sector_lem :
    (f : Stream) (n : ℕ)
    → IsWhole f
    → f.position < f.size
    → f.position % f.physical_sector_size + n ≤ f.physical_sector_size
    → binary_read_sector f
        (f.position / f.physical_sector_size)
        (f.position % f.physical_sector_size)
        n
      ≡ done (slice f (left_of f n))
unfolding binary_read_sector slice
binary_read_sector_lem f n w h k =
    let (s, e, inside) = sector_found f f.position w h in
    let test : leb f.size f.position ≡ false = ground arith in
    let small : left_of f n ≤ n = left_of_le f n in
    rw test (
      rw e (
        rw (clip_lem f n w h (omega arith))
          (ap done (read_at-sector f (left_of f n) s (omega arith) e inside))))
