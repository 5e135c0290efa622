-- ===== src/FileSystem/Extract/Copy.antt =====
-- What `CacheExtractFile` writes.
use revive_emu.Base.{
  ℕ, zero, suc, ◌+◌, ◌-◌, ◌*◌, ◌/◌, ◌%◌, ◌≤◌, ◌<◌, true, false, some, List, [], ◌∷◌, ◌++◌, ◌==◌,
  ◌≡◌, refl, sym, ap, ◌∙◌, arith, Bool-cases, inl, inr,
}
use revive_emu.Base.Bytes.{u32_mod}
use revive_emu.Base.Lists.{length, take, drop, All}
use revive_emu.Base.Read.{read_bytes}
use revive_emu.Cache.Outcome.{done, ◌>>=◌}
use revive_emu.Cache.Stream.{Stream, min, total_of, read_file}
use revive_emu.Cache.Stream.Slice.{IsWhole, content, slice, left_of, moved}
use revive_emu.Cache.Stream.Binary.{
  read_binary_lem, slice-moved, moved-moved, moved-IsWhole, length-slice, moved_zero, slice_zero,
  moved-position,
}
use revive_emu.Cache.Stream.Seek.{read_file_binary}
use revive_emu.Cache.Mount.{MountedCache}
use revive_emu.Cache.Names.{CacheItem}
use revive_emu.FileSystem.{Os, FileHandle, FileSystem, stream_at, item_of_file, set_file}
use revive_emu.FileSystem.Extract.{
  buffer_size, extract_loop, extract_to, cache_extract_file, open_target, write_all,
}

-- What is written, in one piece.
abbrev pub joined : List (List ℕ) → List ℕ
joined [] = []
joined (piece ∷ pieces) = piece ++ joined pieces

take_part : (xs ys : List ℕ) → take (length xs) (xs ++ ys) ≡ xs
take_part [] ys = refl
take_part (x ∷ xs) ys = ap (λ t. x ∷ t) (take_part xs ys)

-- A read of the next `n` bytes, which are there.
read_next :
    (s : Stream) (n : ℕ)
    → IsWhole s
    → s.is_binary ≡ true
    → s.position + n ≤ s.size
    → n < u32_mod
    → read_file (some s) 1 n ≡ done (slice s n, some (moved s n))
unfolding left_of total_of IsWhole
read_next s n w b room l =
    let all : min (1 * n % u32_mod) (s.size - s.position) ≡ n = ground arith in
    read_file_binary s 1 n b
    ∙ ap (λ r. r >>= λ (t : List ℕ × Stream). done (t.0, some t.1))
        (read_binary_lem s 1 n w (omega arith))
    ∙ ap (λ t. done (slice s t, some (moved s t))) all

moved-size : (s : Stream) (n : ℕ) → (moved s n).size ≡ s.size
unfolding moved
moved-size s n = refl

moved-is_binary : (s : Stream) (n : ℕ) → (moved s n).is_binary ≡ s.is_binary
unfolding moved
moved-is_binary s n = refl

-- What the loop has written when it is done.
IsCopy : Stream → ℕ → List (List ℕ) → Type 0
IsCopy s left pieces =
    (joined pieces ≡ slice s left) × All (λ piece. length piece ≤ buffer_size) pieces

-- The loop with nothing left to copy.
finished :
    (fuel : ℕ) (s : Stream) (left : ℕ) (buffer : List ℕ)
    → left ≡ 0
    → (pieces : List (List ℕ)) × (extract_loop (suc fuel) s left buffer
        ≡ done (pieces, moved s left))
      × IsCopy s left pieces
unfolding extract_loop IsCopy
finished fuel s left buffer e =
    ([], rw e (ap (λ t. done ([], t)) (sym (moved_zero s))), (rw e (sym (slice_zero s)), tt))

-- A round.
extract_round :
    (fuel : ℕ) (s t : Stream) (left : ℕ) (buffer : List ℕ) (pieces : List (List ℕ))
    → let n = min buffer_size left in
      left == 0 ≡ false
      → read_file (some s) 1 n ≡ done (slice s n, some (moved s n))
      → extract_loop fuel (moved s n) (left - n) (slice s n ++ drop (length (slice s n)) buffer)
        ≡ done (pieces, t)
      → extract_loop (suc fuel) s left buffer ≡ done (slice s n ∷ pieces, t)
unfolding extract_loop
extract_round fuel s t left buffer pieces some_left was_read rest =
    let n = min buffer_size left in
    let piece : take n (slice s n ++ drop (length (slice s n)) buffer) ≡ slice s n =
      ap (λ m. take m (slice s n ++ drop (length (slice s n)) buffer)) (sym (length-slice s n))
      ∙ take_part (slice s n) (drop (length (slice s n)) buffer) in
    rw some_left (rw was_read (rw rest (ap (λ p. done (p ∷ pieces, t)) piece)))

IsCopy-cons :
    (s : Stream) (n left : ℕ) (pieces : List (List ℕ))
    → n ≤ left
    → n ≤ buffer_size
    → IsCopy (moved s n) (left - n) pieces
    → IsCopy s left (slice s n ∷ pieces)
unfolding IsCopy
IsCopy-cons s n left pieces h k c =
    let parts : n + (left - n) ≡ left = omega arith in
    (
      ap (λ t. slice s n ++ t) c.0 ∙ sym (slice-moved s n (left - n)) ∙ ap (slice s) parts,
      (omega (arith, length-slice s n), c.1),
    )

extract_loop_lem :
    (fuel : ℕ) (s : Stream) (left : ℕ) (buffer : List ℕ)
    → IsWhole s
    → s.is_binary ≡ true
    → s.position + left ≤ s.size
    → left ≤ fuel * buffer_size
    → (pieces : List (List ℕ)) × (extract_loop (suc fuel) s left buffer
        ≡ done (pieces, moved s left))
      × IsCopy s left pieces
extract_loop_lem zero s left buffer w b room enough = finished zero s left buffer (omega arith)
extract_loop_lem (suc fuel) s left buffer w b room enough = elim (Bool-cases (left == 0)) [
  | inl e ↦ finished (suc fuel) s left buffer (ground arith)
  | inr e ↦
      let n = min buffer_size left in
      let small : n ≤ buffer_size = ground arith in
      let part : n ≤ left = ground arith in
      let inside : (moved s n).position + (left - n) ≤ (moved s n).size =
        omega (arith, moved-position s n, moved-size s n) in
      let rest_fuel : left - n ≤ fuel * buffer_size = ground arith in
      let (pieces, same, copy) =
        extract_loop_lem fuel (moved s n) (left - n) (slice s n ++ drop (length (slice s n)) buffer)
          (moved-IsWhole s n w) (moved-is_binary s n ∙ b) inside rest_fuel in
      let all : n + (left - n) ≡ left = omega arith in
      (
        slice s n ∷ pieces,
        extract_round (suc fuel) s (moved (moved s n) (left - n)) left buffer pieces e
              (read_next s n w b (omega arith) (omega arith)) same
            ∙ ap (λ t. done (slice s n ∷ pieces, t))
                (moved-moved s n (left - n) ∙ ap (moved s) all),
        IsCopy-cons s n left pieces part small copy,
      )
]

-- A file of a cache that stands at its start, in binary mode, whose sectors cover it and lie in
-- the cache's file, and a file of the disk that could be opened for it: `CacheExtractFile` returns
-- and answers 1. It has written the bytes of the file in order, in pieces of at most 512 KB,
-- closed the file of the disk, and moved the position to the end.
pub cache_extract_file_lem :
    {os : Os} (h : ℕ) (f : FileHandle) (c : MountedCache) (item : CacheItem) (file : ℕ)
    (w : os.World) (fs : FileSystem os)
    → item_of_file f.member fs.manager ≡ done (c, item)
    → open_target os item fs.world ≡ (some file, w)
    → let s = stream_at f c item in
      IsWhole s
      → s.is_binary ≡ true
      → f.position ≡ 0
      → (pieces : List (List ℕ)) × (cache_extract_file h f fs
          ≡ done (
            true,
            set_file h
                (record f { position = item.size })
                (record fs { world = (os.fclose file (write_all os file pieces w)).1 }),
          ))
        × (joined pieces ≡ read_bytes (content s) 0 item.size)
        × All (λ piece. length piece ≤ buffer_size) pieces
unfolding cache_extract_file extract_to stream_at moved slice IsCopy
cache_extract_file_lem {os} h f c item file w fs there opened whole b start =
    let s = stream_at f c item in
    let (pieces, same, copy) =
      extract_loop_lem (suc (item.size / buffer_size)) s item.size (os.fresh_memory buffer_size)
        whole b (omega arith) (omega arith) in
    let at_end : f.position + item.size ≡ item.size = omega arith in
    let end_at = λ (t : ℕ). done (
      true,
      set_file h (record f { position = t })
          (record fs { world = (os.fclose file (write_all os file pieces w)).1 }),
    ) in
    (
      pieces,
      rw there (rw opened (rw same (ap end_at at_end))),
      copy.0 ∙ ap (λ t. read_bytes (content s) t item.size) start,
      copy.1,
    )
