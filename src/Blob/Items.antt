-- ===== src/Blob/Items.antt =====
-- The reader on written values, and on any written block.
use revive_emu.Base.{
  ℕ, zero, suc, ◌+◌, ◌<◌, true, false, some, List, [], ◌∷◌, ◌++◌, ◌==◌, ltb, ◌≡◌, refl, sym, ap,
  ◌∙◌, subst, arith, Bool-cases, inl, inr,
}
use revive_emu.Base.Bytes.{Memory, u32_mod}
use revive_emu.Base.Lists.{length, length-append}
use revive_emu.Cache.Outcome.{Outcome, done}
use revive_emu.Blob.{
  Node, Nodes, node, no_nodes, add, value, Pointer, at, plus, magic, node_magic_num, entries,
  read_entries, value_entry,
}
use revive_emu.Blob.Print.{
  Item, write_name, write_block, write_value, write_item, write_items, item_node, item_nodes,
  IsItem, IsItems,
}
use revive_emu.Blob.Held.{IsHeld, IsHeld-after, name-IsHeld}
use revive_emu.Blob.Values.{
  length-write_name, length-write_block, block-IsHeld, value_properties-write_block,
}
use mathlib.Core.List.{append_assoc}

pub length-write_item :
    (v : Item) → length (write_item v) ≡ 6 + length v.name + (10 + length (write_value v))
unfolding write_item
length-write_item v = omega (
  arith,
  length-append (write_name v.name (10 + length (write_value v))) (write_block (write_value v)),
  length-write_name v.name (10 + length (write_value v)),
  length-write_block (write_value v),
)

item_name : (v : Item) → IsItem v → length v.name < 0x8000
unfolding IsItem
item_name v w = w.0

value_entry-write_item :
    (p : Memory) (i : ℕ) (v : Item) (ys : List ℕ)
    → IsItem v
    → IsHeld p i (write_item v ++ ys)
    → value_entry p i ≡ done (item_node v, at (i + length (write_item v)))
unfolding value_entry item_node write_item
value_entry-write_item p i v ys w h =
    let head = write_name v.name (10 + length (write_value v)) in
    let (size, name, rest) =
      name-IsHeld p i (10 + length (write_value v)) v.name (write_block (write_value v) ++ ys)
        (item_name v w)
        (subst (IsHeld p i) (append_assoc head (write_block (write_value v)) ys) h) in
    let end : i + 6 + length v.name + (10 + length (write_value v)) ≡ i + length (write_item v) =
      omega (arith, length-write_item v) in
    rw size (
      rw (value_properties-write_block p (i + 6 + length v.name) v ys w rest) (
        rw name (
          ap
            (λ t. done (
              node v.name value no_nodes (some (record { type_of = v.type_of; value = v.bytes })),
              at t,
            ))
            end)))

-- One entry of a block and the others.
pub entries_step :
    (entry : ℕ → Outcome (Node × Pointer)) (fuel end i j : ℕ) (n : Node) (ns : Nodes)
    → i < end
    → entry i ≡ done (n, at j)
    → entries entry fuel end (at j) ≡ done (ns, at end)
    → entries entry (suc fuel) end (at i) ≡ done (add n ns, at end)
unfolding entries
entries_step entry fuel end i j n ns l e rest =
    let inside : ltb i end ≡ true = ground arith in rw inside (rw e (rw rest refl))

pub entries_end :
    (entry : ℕ → Outcome (Node × Pointer)) (fuel end i : ℕ)
    → i ≡ end
    → entries entry (suc fuel) end (at i) ≡ done (no_nodes, at end)
unfolding entries
entries_end entry fuel end i e =
    let outside : ltb i end ≡ false = ground arith in rw outside (ap (λ t. done (no_nodes, at t)) e)

pub entries-write_items :
    (p : Memory) (vs : List Item) (fuel end i : ℕ) (ys : List ℕ)
    → IsItems vs
    → length vs < fuel
    → i + length (write_items vs) ≡ end
    → IsHeld p i (write_items vs ++ ys)
    → entries (value_entry p) fuel end (at i) ≡ done (item_nodes vs, at end)
unfolding write_items item_nodes IsItems
entries-write_items p vs zero end i ys w l e h = absurd (omega arith)
entries-write_items p [] (suc fuel) end i ys w l e h =
    entries_end (value_entry p) fuel end i (omega arith)
entries-write_items p (v ∷ vs) (suc fuel) end i ys w l e h =
    let held = subst (IsHeld p i) (append_assoc (write_item v) (write_items vs) ys) h in
    let size = length-append (write_item v) (write_items vs) in
    let some_bytes = length-write_item v in
    let next =
      IsHeld-after p i (length (write_item v)) (i + length (write_item v)) (write_item v)
        (write_items vs ++ ys) refl refl held in
    entries_step (value_entry p) fuel end i (i + length (write_item v)) (item_node v)
      (item_nodes vs) (omega arith) (value_entry-write_item p i v (write_items vs ++ ys) w.0 held)
      (entries-write_items p vs fuel end (i + length (write_item v)) ys w.1 (omega arith)
        (omega arith) next)

-- A block whose entries are read to its end.
pub read_entries-write_block :
    (entry : ℕ → Outcome (Node × Pointer)) (fuel : ℕ) (p : Memory) (i : ℕ) (bs ys : List ℕ)
    (ns : Nodes)
    → 10 + length bs < u32_mod
    → IsHeld p i (write_block bs ++ ys)
    → (length bs ≡ 0 → ns ≡ no_nodes)
    → entries entry fuel (i + (10 + length bs)) (at (i + 10)) ≡ done (ns, at (i + (10 + length bs)))
    → read_entries entry fuel p i ≡ done (ns, at (i + (10 + length bs)))
unfolding read_entries plus
read_entries-write_block entry fuel p i bs ys ns l h empty rest =
    let (m, d, pad, inside) = block-IsHeld p i bs ys h in
    let good : magic p i == node_magic_num ≡ true = ground arith in
    rw good (
      rw (d l) (elim (Bool-cases (10 + length bs == 10)) [
        | inl e ↦
            let end : i + 10 + 0 ≡ i + (10 + length bs) = ground arith in
            rw e (
              rw pad (
                ap (λ t. done (no_nodes, at t)) end
                ∙ ap (λ t. done (t, at (i + (10 + length bs)))) (sym (empty (ground arith)))))
        | inr e ↦
            let end : i + (10 + length bs) + 0 ≡ i + (10 + length bs) = omega arith in
            rw e (rw rest (rw pad (ap (λ t. done (ns, at t)) end)))
      ]))
