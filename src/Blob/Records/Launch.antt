-- ===== src/Blob/Records/Launch.antt =====
-- The launch option ids of a version record, each of which stands in a descriptor's own words.
use revive_emu.Base.{
  ℕ, zero, suc, ◌+◌, ◌*◌, ◌<◌, true, false, List, [], ◌∷◌, ◌++◌, ◌==◌, ltb, ◌≡◌, refl, sym, ap, ◌∙◌,
  subst, arith,
}
use revive_emu.Base.Bytes.{Memory, u32_mod}
use revive_emu.Base.Lists.{length, length-append}
use revive_emu.Base.Read.{read_le}
use revive_emu.Cache.Outcome.{done}
use revive_emu.Blob.{magic, node_magic_num}
use revive_emu.Blob.Print.{write_le, write_descriptor, write_block}
use revive_emu.Blob.Held.{IsHeld, IsHeld-after}
use revive_emu.Blob.Values.{length-write_descriptor, block-IsHeld}
use revive_emu.Blob.Records.{launch_ids, read_launch_ids}
use mathlib.Core.List.{append_assoc}

-- Descriptors with no data behind them, the type of each an id.
unfoldable pub write_ids : List ℕ → List ℕ
write_ids [] = []
write_ids (id ∷ ids) = write_descriptor 0 id ++ write_ids ids

-- For each id but the last the first word of the next descriptor, and for the last what follows.
unfoldable pub words_behind : List ℕ → ℕ → List ℕ
words_behind [] next = []
words_behind (id ∷ []) next = next ∷ []
words_behind (id ∷ id' ∷ ids) next = 4 ∷ words_behind (id' ∷ ids) next

length-write_ids : (ids : List ℕ) → length (write_ids ids) ≡ 10 * length ids
unfolding write_ids
length-write_ids [] = refl
length-write_ids (id ∷ ids) = omega (
  arith,
  length-append (write_descriptor 0 id) (write_ids ids),
  length-write_descriptor 0 id,
  length-write_ids ids,
)

-- The first word of a descriptor with no data.
first_word :
    (p : Memory) (i id : ℕ) (ys : List ℕ)
    → IsHeld p i (write_descriptor 0 id ++ ys)
    → read_le 4 p i ≡ 4
unfolding IsHeld write_descriptor write_le read_le
first_word p i id ys h = omega (arith, h.0, h.1.0, h.1.1.0, h.1.1.1.0)

IsHeld-behind :
    (p : Memory) (i id : ℕ) (ids ys : List ℕ)
    → IsHeld p i (write_ids (id ∷ ids) ++ ys)
    → IsHeld p (i + 10) (write_ids ids ++ ys)
unfolding write_ids
IsHeld-behind p i id ids ys h =
    IsHeld-after p i 10 (i + 10) (write_descriptor 0 id) (write_ids ids ++ ys)
      (length-write_descriptor 0 id) refl
      (subst (IsHeld p i) (append_assoc (write_descriptor 0 id) (write_ids ids) ys) h)

launch_ids-write_ids :
    (fuel : ℕ) (p : Memory) (i end next : ℕ) (ids ys : List ℕ)
    → length ids < fuel
    → i + length (write_ids ids) ≡ end
    → IsHeld p i (write_ids ids ++ ys)
    → read_le 4 p end ≡ next
    → launch_ids fuel p end i ≡ done (words_behind ids next)
unfolding launch_ids write_ids words_behind
launch_ids-write_ids zero p i end next ids ys l e h r = absurd (omega arith)
launch_ids-write_ids (suc fuel) p i end next [] ys l e h r =
    let outside : ltb i end ≡ false = ground arith in rw outside refl
launch_ids-write_ids (suc fuel) p i end next (id ∷ []) ys l e h r =
    let size = length-write_ids (id ∷ []) in
    let inside : ltb i end ≡ true = ground arith in
    let last : i + 10 ≡ end = omega arith in
    let rest =
      launch_ids-write_ids fuel p (i + 10) end next [] ys (omega arith) (omega arith)
        (IsHeld-behind p i id [] ys h) r in
    rw inside (rw rest (ap (λ w. done (w ∷ [])) (ap (read_le 4 p) last ∙ r)))
launch_ids-write_ids (suc fuel) p i end next (id ∷ id' ∷ ids) ys l e h r =
    let size = length-write_ids (id ∷ id' ∷ ids) in
    let others = length-write_ids (id' ∷ ids) in
    let inside : ltb i end ≡ true = ground arith in
    let held = IsHeld-behind p i id (id' ∷ ids) ys h in
    let rest =
      launch_ids-write_ids fuel p (i + 10) end next (id' ∷ ids) ys (omega arith) (omega arith) held
        r in
    let word =
      first_word p (i + 10) id' (write_ids ids ++ ys) (
        subst (IsHeld p (i + 10)) (append_assoc (write_descriptor 0 id') (write_ids ids) ys)
          held) in
    rw inside (rw rest (rw word refl))

-- From a block of launch option ids, each the type of a descriptor without data and the block
-- below 2 ^ 32 bytes, the loop returns with one more round of fuel than there are ids, and reads
-- none of them: each but the last comes out as 4, the first word of the next descriptor, and the
-- last as the word behind the block.
pub read_launch_ids-write_ids :
    (fuel : ℕ) (p : Memory) (i : ℕ) (ids ys : List ℕ)
    → length ids < fuel
    → 10 + length (write_ids ids) < u32_mod
    → IsHeld p i (write_block (write_ids ids) ++ ys)
    → read_launch_ids fuel p i
      ≡ done (words_behind ids (read_le 4 p (i + 10 + length (write_ids ids))))
unfolding read_launch_ids
read_launch_ids-write_ids fuel p i ids ys l k h =
    let (m, d, pad, inside) = block-IsHeld p i (write_ids ids) ys h in
    let good : magic p i == node_magic_num ≡ true = ground arith in
    let end : i + 10 + length (write_ids ids) ≡ i + (10 + length (write_ids ids)) = omega arith in
    rw good (
      rw (d k) (
        launch_ids-write_ids fuel p (i + 10) (i + (10 + length (write_ids ids))) _ ids ys l end
          inside (ap (read_le 4 p) (sym end))))
