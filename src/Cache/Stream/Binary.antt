-- ===== src/Cache/Stream/Binary.antt =====
-- `ReadBinary`: its rounds, and the whole loop.
use revive_emu.Base.{
  ℕ, zero, suc, ◌+◌, ◌-◌, ◌/◌, ◌%◌, ◌≤◌, ◌<◌, true, false, List, [], ◌++◌, ltb, leb, ◌==◌, ◌≡◌, ◌≢◌,
  refl, sym, ap, ◌∙◌, arith, Bool-cases, inl, inr, ◌⊎◌,
}
use revive_emu.Base.Bytes.{u32_mod}
use revive_emu.Base.Lists.{length, length-append}
use revive_emu.Base.Read.{read_bytes}
use revive_emu.Cache.Outcome.{Outcome, done}
use revive_emu.Cache.Stream.{
  Stream, advance, binary_read_sector, wanted, binary_loop, total_of, read_binary,
}
use revive_emu.Cache.Stream.Slice.{
  IsWhole, content, place, slice, moved, left_of, left_of_le, read_bytes-add, length-read_bytes,
  binary_read_sector_lem,
}
use native.Mathlib.Nat.{mul-add-div_right, div-add-mod', mod-lt, mod-eq_of_lt, div_self}
use mathlib.Core.List.{append-nil, append_assoc}

-- What is wanted of a sector: something, no more than is left to read or than the sector has, and
-- one of these.
wanted_lem :
    (f : Stream) (n : ℕ)
    → IsWhole f
    → 0 < n
    → (0 < wanted f n)
      × (wanted f n ≤ n)
      × (f.position % f.physical_sector_size + wanted f n ≤ f.physical_sector_size)
      × ((wanted f n ≡ n)
          ⊎ (f.position % f.physical_sector_size + wanted f n ≡ f.physical_sector_size))
unfolding wanted IsWhole
wanted_lem f n w h =
    let off = mod-lt f.position w.0 in
    elim (Bool-cases (leb n (f.physical_sector_size - f.position % f.physical_sector_size))) [
      | inl e ↦ rw e (h, omega arith, ground arith, inl refl)
      | inr e ↦ rw e (omega arith, ground arith, omega arith, inr (omega arith))
    ]

-- The sector behind the present one.
next_sector : (n k j : ℕ) → 0 < n → k % n + j ≡ n → (k + j) / n ≡ k / n + 1
next_sector n k j h e =
    ap (λ (t : ℕ). t / n) (omega (arith, div-add-mod' k n))
    ∙ mul-add-div_right h (k / n) (k % n + j)
    ∙ ap (λ t. k / n + t / n) e
    ∙ ap (λ t. k / n + t) (div_self h)

pub advance-moved : (f : Stream) (n : ℕ) → f.position + n < u32_mod → advance f n ≡ moved f n
unfolding advance moved
advance-moved f n h = ap (λ t. record f { position = t }) (mod-eq_of_lt h)

pub moved_zero : (f : Stream) → moved f 0 ≡ f
unfolding moved
moved_zero f = ap (λ t. record f { position = t }) (omega arith)

-- Two reads in a row are one.
pub slice-moved : (f : Stream) (m n : ℕ) → slice f (m + n) ≡ slice f m ++ slice (moved f m) n
unfolding slice moved content place
slice-moved f m n = read_bytes-add (content f) f.position m n

pub moved-moved : (f : Stream) (m n : ℕ) → moved (moved f m) n ≡ moved f (m + n)
unfolding moved
moved-moved f m n = ap (λ t. record f { position = t }) (omega arith)

pub moved-IsWhole : (f : Stream) (n : ℕ) → IsWhole f → IsWhole (moved f n)
unfolding IsWhole moved
moved-IsWhole f n w = w

pub length-slice : (f : Stream) (n : ℕ) → length (slice f n) ≡ n
unfolding slice
length-slice f n = length-read_bytes (content f) f.position n

read_past :
    (f : Stream) (index offset n : ℕ)
    → leb f.size f.position ≡ true
    → binary_read_sector f index offset n ≡ done []
unfolding binary_read_sector
read_past f index offset n e = rw e refl

left_past : (f : Stream) (n : ℕ) → leb f.size f.position ≡ true → left_of f n ≡ 0
unfolding left_of
left_past f n e = ground arith

left_none : (f : Stream) (n : ℕ) → n ≡ 0 → left_of f n ≡ 0
left_none f n e = omega (arith, left_of_le f n)

left_room :
    (f : Stream) (n : ℕ) → IsWhole f → f.position < u32_mod → f.position + left_of f n < u32_mod
unfolding left_of IsWhole
left_room f n w b = ground arith

-- A sector read to the wanted end, and the rest.
left_split :
    (f : Stream) (m n : ℕ) → m ≤ n → left_of f m ≡ m → left_of f n ≡ m + left_of (moved f m) (n - m)
unfolding left_of moved
left_split f m n h e = ground arith

-- The end of the file in a sector.
left_short : (f : Stream) (m n : ℕ) → m ≤ n → left_of f m ≢ m → left_of f n ≡ left_of f m
unfolding left_of
left_short f m n h e = ground arith

-- What a read answers that puts the next `k` bytes into the buffer.
abbrev pub behind : Stream → List ℕ → ℕ → Outcome (List ℕ × Stream)
behind f out k = done (out ++ slice f k, moved f k)

pub slice_zero : (f : Stream) → slice f 0 ≡ []
unfolding slice read_bytes
slice_zero f = refl

stay : (f : Stream) (out : List ℕ) (k : ℕ) → k ≡ 0 → behind f out 0 ≡ behind f out k
stay f out k e = ap (behind f out) (sym e)

behind_zero : (f : Stream) (out : List ℕ) → done (out, f) ≡ behind f out 0
behind_zero f out = rw (slice_zero f) (rw (append-nil out) (rw (moved_zero f) refl))

behind_nothing :
    (f : Stream) (out : List ℕ)
    → f.position < u32_mod
    → done (out ++ [], advance f 0) ≡ behind f out 0
behind_nothing f out b = rw (advance-moved f 0 (omega arith)) (rw (slice_zero f) refl)

-- Two steps are one.
join :
    (f : Stream) (out : List ℕ) (m k : ℕ)
    → behind (moved f m) (out ++ slice f m) k ≡ behind f out (m + k)
join f out m k =
    rw (append_assoc out (slice f m) (slice (moved f m) k))
      (rw (sym (slice-moved f m k)) (rw (moved-moved f m k) refl))

pub next_index :
    (f : Stream) (m : ℕ)
    → IsWhole f
    → f.position % f.physical_sector_size + m ≡ f.physical_sector_size
    → f.position / f.physical_sector_size + 1
      ≡ (moved f m).position / (moved f m).physical_sector_size
unfolding moved IsWhole
next_index f m w e = sym (next_sector f.physical_sector_size f.position m w.0 e)

pub moved-position : (f : Stream) (m : ℕ) → (moved f m).position ≡ f.position + m
unfolding moved
moved-position f m = refl

-- The loop, at a place where the sector's number is right if anything is left to read.
pub binary_loop_lem :
    (fuel : ℕ) (f : Stream) (total index : ℕ) (out : List ℕ)
    → IsWhole f
    → f.position < u32_mod
    → (length out < total → index ≡ f.position / f.physical_sector_size)
    → total - length out < fuel
    → binary_loop fuel f total index out ≡ behind f out (left_of f (total - length out))
unfolding binary_loop
binary_loop_lem zero f total index out w b i h = absurd (omega arith)
binary_loop_lem (suc fuel) f total index out w b i h =
    let n = total - length out in
    let m = wanted f n in
    elim (Bool-cases (ltb (length out) total)) [
      | inr e ↦ rw e (behind_zero f out ∙ stay f out (left_of f n) (left_none f n (ground arith)))
      | inl e ↦
          let (some_wanted, few, fits, ends) = wanted_lem f n w (ground arith) in
          rw e (
            rw (i (ground arith)) (elim (Bool-cases (leb f.size f.position)) [
              | inl past ↦
                  let short : 0 == m ≡ false = ground arith in
                  let nothing =
                    read_past f (f.position / f.physical_sector_size)
                      (f.position % f.physical_sector_size) m past in
                  rw nothing (
                    rw short
                      (behind_nothing f out b ∙ stay f out (left_of f n) (left_past f n past)))
              | inr here ↦
                  let got = length-slice f (left_of f m) in
                  let room = left_room f m w b in
                  rw (binary_read_sector_lem f m w (ground arith) fits) (
                    rw got (elim (Bool-cases (left_of f m == m)) [
                      | inl all ↦
                          let whole : left_of f m ≡ m = ground arith in
                          let longer = length-append out (slice f m) in
                          let size = length-slice f m in
                          let remaining : total - length (out ++ slice f m) ≡ n - m = omega arith in
                          rw all (
                            rw whole (
                              rw (advance-moved f m (omega arith)) (
                                binary_loop_lem fuel (moved f m) total
                                  (f.position / f.physical_sector_size + 1) (out ++ slice f m)
                                  (moved-IsWhole f m w) (omega (arith, moved-position f m))
                                  (λ more. next_index f m w (elim ends [
                                    | inl none_left ↦ absurd (omega arith)
                                    | inr full ↦ full
                                  ]))
                                  (omega arith)
                                ∙ rw remaining (
                                    join f out m (left_of (moved f m) (n - m))
                                    ∙ ap (behind f out) (sym (left_split f m n few whole))))))
                      | inr short ↦
                          let part = left_short f m n few (λ same. ground arith) in
                          rw short
                            (rw (advance-moved f (left_of f m) room) (ap (behind f out) (sym part)))
                    ]))
            ]))
    ]

-- Of an open file whose sectors cover it and lie in the cache's file, with less than 2 ^ 32 bytes
-- and a sector's room, a binary read at any position returns: it gives the file's bytes from that
-- position on, as many as asked for or as are left, and moves the position behind them.
pub read_binary_lem :
    (f : Stream) (size count : ℕ)
    → IsWhole f
    → f.position < u32_mod
    → read_binary f size count
      ≡ done (slice f (left_of f (total_of size count)), moved f (left_of f (total_of size count)))
unfolding read_binary IsWhole
read_binary_lem f size count w b =
    let positive : f.physical_sector_size == 0 ≡ false = ground arith in
    rw positive (
      binary_loop_lem (suc (total_of size count)) f (total_of size count)
        (f.position / f.physical_sector_size) [] w b (λ more. refl) (omega arith)
      ∙ ap (λ n. behind f [] (left_of f n)) (omega arith))
