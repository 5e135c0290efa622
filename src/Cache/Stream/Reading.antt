-- ===== src/Cache/Stream/Reading.antt =====
-- The whole loop of `ReadText`.
use revive_emu.Base.{
  ℕ, zero, suc, ◌+◌, ◌-◌, ◌/◌, ◌%◌, ◌≤◌, ◌<◌, true, false, not, ◌&&◌, some, List, [], ◌++◌, ltb,
  leb, ◌==◌, ◌≡◌, refl, sym, ap, subst, ◌∙◌, arith, Bool-cases, inl, inr, ◌⊎◌,
}
use revive_emu.Base.Bytes.{u32_mod}
use revive_emu.Base.Lists.{length, length-append, length-keep-le}
use revive_emu.Cache.Outcome.{Outcome, done}
use revive_emu.Cache.Stream.{
  Stream, min, total_of, carriage_return, text_round, text_read_sector, text_loop, read_text,
}
use revive_emu.Cache.Stream.Text.{plain, plain-append, sector_read, IsRound, text_round_lem}
use revive_emu.Cache.Stream.Slice.{IsWhole, content, slice, moved, length-read_bytes}
use revive_emu.Cache.Stream.Binary.{
  slice-moved, moved-moved, moved-IsWhole, advance-moved, moved-position, next_index, slice_zero,
  moved_zero,
}
use native.Mathlib.Nat.{mod-eq_of_lt}
use mathlib.Core.List.{append-nil, append_assoc}

-- What a read of `n` takes: all that is left of the file or at least `n` bytes, of which it keeps
-- at most `n` characters.
unfoldable pub IsRead : Stream → ℕ → ℕ → Type 0
IsRead f n k =
    (k ≤ f.size - f.position) × (min n (f.size - f.position) ≤ k) × (length (plain (slice f k)) ≤ n)

text_stop : (f : Stream) (n : ℕ) → (n ≡ 0) ⊎ (f.size ≤ f.position) → IsRead f n 0
unfolding IsRead plain
text_stop f n e =
    let none : length (plain (slice f 0)) ≡ 0 = ap (λ s. length (plain s)) (slice_zero f) in
    (omega arith, elim e [ inl a ↦ ground arith | inr a ↦ ground arith ], omega arith)

length-plain-slice : (f : Stream) (n : ℕ) → length (plain (slice f n)) ≤ n
unfolding plain slice
length-plain-slice f n = omega (
  arith,
  length-keep-le (λ c. not (c == carriage_return)) (slice f n),
  length-read_bytes (content f) f.position n,
)

-- The answer after the next `k` bytes.
abbrev after : Stream → List ℕ → ℕ → Outcome (List ℕ × Stream)
after f out k = done (out ++ plain (slice f k), moved f k)

after_zero : (f : Stream) (out : List ℕ) → done (out, f) ≡ after f out 0
unfolding plain
after_zero f out = rw (slice_zero f) (rw (append-nil out) (rw (moved_zero f) refl))

after-moved :
    (f : Stream) (out : List ℕ) (m k : ℕ)
    → after (moved f m) (out ++ plain (slice f m)) k ≡ after f out (m + k)
after-moved f out m k = rw (append_assoc out (plain (slice f m)) (plain (slice (moved f m) k))) (
    rw (sym (plain-append (slice f m) (slice (moved f m) k)))
      (rw (sym (slice-moved f m k)) (rw (moved-moved f m k) refl)))

moved-size : (f : Stream) (m : ℕ) → (moved f m).size ≡ f.size
unfolding moved
moved-size f m = refl

-- A round and the rest.
text_join :
    (f : Stream) (n t k : ℕ) (r : ℕ × List ℕ)
    → IsRound f n t r
    → IsRead (moved f t) (n - t) k
    → IsRead f n (t + k)
unfolding IsRound IsRead
text_join f n t k r round rest =
    let here = moved-position f t in
    let same_size = moved-size f t in
    let parts : plain (slice f (t + k)) ≡ plain (slice f t) ++ plain (slice (moved f t) k) =
      ap plain (slice-moved f t k) ∙ plain-append (slice f t) (slice (moved f t) k) in
    let lengths : length (plain (slice f (t + k)))
        ≡ length (plain (slice f t)) + length (plain (slice (moved f t) k)) =
      ap length parts ∙ length-append (plain (slice f t)) (plain (slice (moved f t) k)) in
    let few = length-plain-slice f t in (omega arith, grind arith, omega arith)

-- What the loop answers from a state, and how much it takes.
IsAnswer : ℕ → Stream → ℕ → ℕ → ℕ → List ℕ → ℕ → Type 0
IsAnswer fuel f total index taken out k =
    (text_loop fuel f total index taken out ≡ after f out k) × IsRead f (total - taken) k

text_end :
    (fuel : ℕ) (f : Stream) (total index taken : ℕ) (out : List ℕ)
    → ltb taken total && not (leb f.size f.position) ≡ false
    → IsAnswer (suc fuel) f total index taken out 0
unfolding IsAnswer text_loop
text_end fuel f total index taken out e =
    (rw e (after_zero f out), text_stop f (total - taken) (ground arith))

whole-size : (f : Stream) → IsWhole f → f.size < u32_mod
unfolding IsWhole
whole-size f w = omega arith

round_bounds :
    (f : Stream) (n t : ℕ) (r : ℕ × List ℕ) → IsRound f n t r → (0 < t) × (t ≤ f.size - f.position)
unfolding IsRound
round_bounds f n t r round = (round.1, round.2)

text_step :
    (fuel : ℕ) (f : Stream) (total index taken : ℕ) (out sector : List ℕ)
    → ltb taken total && not (leb f.size f.position) ≡ true
    → taken + (f.size - f.position) < u32_mod
    → f.size < u32_mod
    → text_read_sector f index ≡ done (some sector)
    → (t : ℕ) → IsRound f (total - taken) t (text_round f (total - taken) sector)
    → (k : ℕ) → IsAnswer fuel (moved f t) total (index + 1) (taken + t) (out ++ plain (slice f t)) k
    → IsAnswer (suc fuel) f total index taken out (t + k)
unfolding IsAnswer text_loop IsRound
text_step fuel f total index taken out sector e b small read t round k (same, rest) =
    let n = total - taken in
    let fewer : total - (taken + t) ≡ n - t = omega arith in
    let fits : (taken + t) % u32_mod ≡ taken + t = mod-eq_of_lt (omega arith) in
    let inside : f.position < f.size = ground arith in
    (
      rw e (
          rw read (
            rw round.0
              (rw (advance-moved f t (omega arith)) (rw fits (same ∙ after-moved f out t k))))),
      text_join f n t k (text_round f n sector) round (rw (sym fewer) rest),
    )

text_index :
    (f : Stream) (total taken t : ℕ) (r : ℕ × List ℕ)
    → IsWhole f
    → IsRound f (total - taken) t r
    → (index : ℕ) → index ≡ f.position / f.physical_sector_size
    → taken + t < total
    → (moved f t).position < (moved f t).size
    → index + 1 ≡ (moved f t).position / (moved f t).physical_sector_size
unfolding IsRound
text_index f total taken t r w round index e more inside =
    let here = moved-position f t in
    let same_size = moved-size f t in ap (λ x. x + 1) e ∙ next_index f t w (ground arith)

text_loop_lem :
    (fuel : ℕ) (f : Stream) (total index taken : ℕ) (out : List ℕ)
    → IsWhole f
    → taken + (f.size - f.position) < u32_mod
    → (taken < total → f.position < f.size → index ≡ f.position / f.physical_sector_size)
    → total - taken < fuel
    → (k : ℕ) × IsAnswer fuel f total index taken out k
text_loop_lem zero f total index taken out w b i h = absurd (omega arith)
text_loop_lem (suc fuel) f total index taken out w b i h =
    elim (Bool-cases (ltb taken total && not (leb f.size f.position))) [
      | inr e ↦ (0, text_end fuel f total index taken out e)
      | inl e ↦
          let inside : f.position < f.size = ground arith in
          let more : taken < total = ground arith in
          let (sector, read, held) = sector_read f w inside in
          let (t, round) = text_round_lem f (total - taken) sector w inside (omega arith) held in
          let (some_taken, room) = round_bounds f (total - taken) t _ round in
          let there = moved-position f t in
          let same_size = moved-size f t in
          let (k, answer) =
            text_loop_lem fuel (moved f t) total (index + 1) (taken + t) (out ++ plain (slice f t))
              (moved-IsWhole f t w) (omega arith)
              (text_index f total taken t _ w round index (i more inside)) (omega arith) in
          (
            t + k,
            text_step fuel f total index taken out sector e b (whole-size f w)
                (ap (text_read_sector f) (i more inside) ∙ read) t round k answer,
          )
    ]

read_text_answer :
    (f : Stream) (size count : ℕ)
    → IsWhole f
    → (k : ℕ) × (read_text f size count ≡ after f [] k) × IsRead f (total_of size count) k
unfolding read_text IsWhole IsAnswer
read_text_answer f size count w =
    let positive : f.physical_sector_size == 0 ≡ false = ground arith in
    let (k, answer) =
      text_loop_lem (suc (total_of size count)) f (total_of size count)
        (f.position / f.physical_sector_size) 0 [] w (omega arith) (λ more inside. refl)
        (omega arith) in
    let all : total_of size count ≡ total_of size count - 0 = omega arith in
    let (same, rest) = answer in (k, rw positive same, subst (λ n. IsRead f n k) (sym all) rest)

-- Of an open file whose sectors cover it and lie in the cache's file, with less than 2 ^ 32 bytes
-- and a sector's room, a text read returns: it moves the position over a run of bytes that stays
-- in the file and has all that is left or at least as many as asked for, and gives that run
-- without its carriage returns, never more characters than asked for.
pub read_text_lem :
    (f : Stream) (size count : ℕ)
    → IsWhole f
    → (k : ℕ) × (read_text f size count ≡ done (plain (slice f k), moved f k))
      × (k ≤ f.size - f.position)
      × (min (total_of size count) (f.size - f.position) ≤ k)
      × (length (plain (slice f k)) ≤ total_of size count)
unfolding IsRead
read_text_lem f size count w =
    let (k, same, rest) = read_text_answer f size count w in (k, same, rest.0, rest.1, rest.2)
