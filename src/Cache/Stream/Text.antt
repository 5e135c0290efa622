-- ===== src/Cache/Stream/Text.antt =====
-- `ReadText`: its inner loop, its rounds, and the whole loop.
use revive_emu.Base.{
  ℕ, zero, suc, ◌+◌, ◌-◌, ◌*◌, ◌/◌, ◌%◌, ◌≤◌, ◌<◌, true, not, some, List, [], ◌∷◌, ◌++◌, ◌==◌, ◌≡◌,
  refl, sym, ap, ◌∙◌, arith, Bool-cases, inl, inr, ◌⊎◌,
}
use revive_emu.Base.Bytes.{Memory}
use revive_emu.Base.Lists.{drop, length, keep, length-keep-le, take, length-take-le}
use revive_emu.Base.Read.{read_bytes}
use revive_emu.Cache.Outcome.{done}
use revive_emu.Cache.Stream.{
  Stream, min, wanted, read_at, take_text, carriage_return, available_from, text_round,
  text_read_sector,
}
use revive_emu.Cache.Stream.Slice.{
  IsWhole, content, place_within, slice, sector_found, read_bytes_cong, length-read_bytes,
}
use native.Mathlib.Nat.{mod-lt}

-- A text without its carriage returns.
unfoldable pub plain : List ℕ → List ℕ
plain cs = keep (λ c. not (c == carriage_return)) cs

-- The inner loop takes a run of bytes and keeps it without its carriage returns; it stops at one of
-- its bounds.
unfoldable IsTaken : ℕ → ℕ → List ℕ → ℕ × List ℕ → Type 0
IsTaken room available cs r =
    (r.1 ≡ plain (take r.0 cs))
    × (r.0 ≤ available)
    × (r.0 ≤ length cs)
    × (length r.1 ≤ room)
    × ((length r.1 ≡ room) ⊎ ((r.0 ≡ available) ⊎ (r.0 ≡ length cs)))

take_text_lem :
    (room available : ℕ) (cs : List ℕ) → IsTaken room available cs (take_text room available cs)
unfolding take_text IsTaken plain
take_text_lem room available [] = ground arith
take_text_lem room zero (c ∷ cs) = ground arith
take_text_lem zero (suc available) (c ∷ cs) = ground arith
take_text_lem (suc room) (suc available) (c ∷ cs) = elim (Bool-cases (c == carriage_return)) [
  | inl e ↦ rw e ground (arith, take_text_lem (suc room) available cs)
  | inr e ↦ rw e ground (arith, take_text_lem room available cs)
]

drop-read_bytes :
    (p : Memory) (i m n : ℕ) → m ≤ n → drop m (read_bytes p i n) ≡ read_bytes p (i + m) (n - m)
unfolding read_bytes
drop-read_bytes p i zero n h =
    let here : i + 0 ≡ i = omega arith in let all : n - 0 ≡ n = omega arith in rw here (rw all refl)
drop-read_bytes p i (suc m) zero h = absurd (omega arith)
drop-read_bytes p i (suc m) (suc n) h =
    let next : i + suc m ≡ i + 1 + m = omega arith in
    let fewer : suc n - suc m ≡ n - m = omega arith in
    rw next (rw fewer (drop-read_bytes p (i + 1) m n (omega arith)))

take-read_bytes : (p : Memory) (i m n : ℕ) → m ≤ n → take m (read_bytes p i n) ≡ read_bytes p i m
unfolding read_bytes
take-read_bytes p i zero n h = refl
take-read_bytes p i (suc m) zero h = absurd (omega arith)
take-read_bytes p i (suc m) (suc n) h =
    ap (λ t. p i ∷ t) (take-read_bytes p (i + 1) m n (omega arith))

pub plain-append : (xs ys : List ℕ) → plain (xs ++ ys) ≡ plain xs ++ plain ys
unfolding plain
plain-append [] ys = refl
plain-append (x ∷ xs) ys = elim (Bool-cases (x == carriage_return)) [
  | inl e ↦ rw e (plain-append xs ys)
  | inr e ↦ rw e (ap (λ t. x ∷ t) (plain-append xs ys))
]

offset_lt : (f : Stream) → IsWhole f → f.position % f.physical_sector_size < f.physical_sector_size
unfolding IsWhole
offset_lt f w = mod-lt f.position w.0

-- The sector of a position inside the file, and what it holds from there on.
pub sector_read :
    (f : Stream)
    → IsWhole f
    → f.position < f.size
    → (sector : List ℕ) × (text_read_sector f (f.position / f.physical_sector_size)
        ≡ done (some sector))
      × (drop (f.position % f.physical_sector_size) sector
          ≡ read_bytes
              (content f)
              f.position
              (f.physical_sector_size - f.position % f.physical_sector_size))
unfolding text_read_sector read_at content
sector_read f w h =
    let ps = f.physical_sector_size in
    let off = f.position % ps in
    let (s, e, inside) = sector_found f f.position w h in
    let start = f.first_sector_offset + s * ps in
    let all : min ps (f.byte_count - start) ≡ ps = ground arith in
    let full : length (read_bytes f.bytes start ps) == ps ≡ true =
      ground (arith, length-read_bytes f.bytes start ps) in
    let offset : off ≤ ps = omega (arith, offset_lt f w) in
    let step = λ (j : ℕ) (l : j < ps - off).
      ap f.bytes (sym (place_within f f.position j s (omega arith) e)) in
    (
      read_bytes f.bytes start ps,
      rw e (rw all (rw full refl)),
      drop-read_bytes f.bytes start off ps offset
          ∙ read_bytes_cong f.bytes (content f) (start + off) f.position (ps - off) step,
    )

-- A round: a run of the file's bytes without their carriage returns, which ends with the room, with
-- the file or with the sector.
unfoldable pub IsRound : Stream → ℕ → ℕ → ℕ × List ℕ → Type 0
IsRound f left t r =
    (r ≡ (t, plain (slice f t)))
    × (0 < t)
    × (t ≤ f.size - f.position)
    × (length (plain (slice f t)) ≤ left)
    × ((left ≤ t)
        ⊎ ((t ≡ f.size - f.position)
            ⊎ (f.position % f.physical_sector_size + t ≡ f.physical_sector_size)))

length-plain-take : (t : ℕ) (cs : List ℕ) → length (plain (take t cs)) ≤ t
unfolding plain
length-plain-take t cs =
    omega (arith, length-keep-le (λ c. not (c == carriage_return)) (take t cs), length-take-le t cs)

-- The inner loop on the bytes that are left in a sector, all of them in range.
IsRound-taken :
    (f : Stream) (left n : ℕ)
    → f.position % f.physical_sector_size + n ≡ f.physical_sector_size
    → 0 < n
    → 0 < left
    → f.position < f.size
    → (r : ℕ × List ℕ)
    → IsTaken (min left n) (min (f.size - f.position) n) (read_bytes (content f) f.position n) r
    → IsRound f left r.0 r
unfolding IsTaken IsRound slice
IsRound-taken f left n e pos_n pos_left h r taken =
    let cs = read_bytes (content f) f.position n in
    let size : length cs ≡ n = length-read_bytes (content f) f.position n in
    let same : take r.0 cs ≡ slice f r.0 =
      take-read_bytes (content f) f.position r.0 n (omega arith) in
    let text : r.1 ≡ plain (slice f r.0) = taken.0 ∙ ap plain same in
    let few : length r.1 ≤ r.0 = rw taken.0 (length-plain-take r.0 cs) in
    let count : length (plain (slice f r.0)) ≡ length r.1 = ap length (sym text) in
    (ap (λ t. (r.0, t)) text, ground arith, ground arith, ground arith, ground arith)

pub text_round_lem :
    (f : Stream) (left : ℕ) (sector : List ℕ)
    → IsWhole f
    → f.position < f.size
    → 0 < left
    → drop (f.position % f.physical_sector_size) sector
      ≡ read_bytes
          (content f)
          f.position
          (f.physical_sector_size - f.position % f.physical_sector_size)
    → (t : ℕ) × IsRound f left t (text_round f left sector)
unfolding text_round wanted available_from
text_round_lem f left sector w h k e =
    let ps = f.physical_sector_size in
    let off = f.position % ps in
    let below = offset_lt f w in
    let r = text_round f left sector in
    let taken =
      take_text_lem (min left (ps - off)) (min (f.size - f.position) (ps - off))
        (read_bytes (content f) f.position (ps - off)) in
    rw e (_, IsRound-taken f left (ps - off) (omega arith) (omega arith) k h _ taken)
