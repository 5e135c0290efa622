-- ===== src/Blob/Keys.antt =====
-- `SubKeys` and one `KeyEntry` on written bytes, given how the keys below are read.
use revive_emu.Base.{
  ℕ, suc, ◌+◌, ◌<◌, true, none, List, [], ◌∷◌, ◌++◌, ◌==◌, ◌≡◌, refl, sym, ap, subst, arith,
}
use revive_emu.Base.Bytes.{Memory, u32_mod}
use revive_emu.Base.Lists.{length, length-append}
use revive_emu.Cache.Outcome.{Outcome, done}
use revive_emu.Blob.{
  Node, Nodes, node, no_nodes, join, key, Pointer, at, plus, magic, descriptor_type, node_magic_num,
  entries, read_entries, value_entry, sub_key, sub_keys, key_entry,
}
use revive_emu.Blob.Print.{
  Item, Tree, Trees, tree, no_trees, tree_then, write_descriptor, write_name, write_block,
  write_item, write_items, write_below, write_tree, write_trees, item_nodes, tree_node, tree_nodes,
  IsItems, IsTree,
}
use revive_emu.Blob.Held.{IsHeld, IsHeld-after, IsHeld-first, descriptor-IsHeld, name-IsHeld}
use revive_emu.Blob.Values.{
  length-write_name, length-write_block, length-write_descriptor, block-IsHeld,
}
use revive_emu.Blob.Items.{length-write_item, entries-write_items, read_entries-write_block}
use mathlib.Core.List.{append_assoc, append-nil}

sub_key_keys :
    (entry : ℕ → Outcome (Node × Pointer)) (fuel : ℕ) (p : Memory) (ns ms : Nodes) (i : ℕ)
    (place : Pointer)
    → descriptor_type p i ≡ 1
    → read_entries entry fuel p (i + 10) ≡ done (ms, place)
    → sub_key entry fuel p (ns, at i) ≡ done (join ns ms, place)
unfolding sub_key
sub_key_keys entry fuel p ns ms i place d e = rw d (rw e refl)

sub_key_values :
    (entry : ℕ → Outcome (Node × Pointer)) (fuel : ℕ) (p : Memory) (ns ms : Nodes) (i : ℕ)
    (place : Pointer)
    → descriptor_type p i ≡ 2
    → read_entries (value_entry p) fuel p (i + 10) ≡ done (ms, place)
    → sub_key entry fuel p (ns, at i) ≡ done (join ns ms, place)
unfolding sub_key
sub_key_values entry fuel p ns ms i place d e = rw d (rw e refl)

no_items : (vs : List Item) → length (write_items vs) ≡ 0 → item_nodes vs ≡ no_nodes
unfolding write_items item_nodes
no_items [] e = refl
no_items (v ∷ vs) e =
    absurd (omega (arith, length-append (write_item v) (write_items vs), length-write_item v))

length-write_below : (ts vs : List ℕ) → length (write_below ts vs) ≡ 40 + length ts + length vs
unfolding write_below
length-write_below ts vs = omega (
  arith,
  length-append (write_descriptor (10 + length ts) 1)
      (write_block ts ++ (write_descriptor (10 + length vs) 2 ++ write_block vs)),
  length-append (write_block ts) (write_descriptor (10 + length vs) 2 ++ write_block vs),
  length-append (write_descriptor (10 + length vs) 2) (write_block vs),
  length-write_descriptor (10 + length ts) 1,
  length-write_descriptor (10 + length vs) 2,
  length-write_block ts,
  length-write_block vs,
)

-- The block of values, with nothing behind it.
read_last :
    (p : Memory) (fuel i : ℕ) (vs : List Item)
    → 10 + length (write_items vs) < u32_mod
    → IsItems vs
    → length vs < fuel
    → IsHeld p i (write_block (write_items vs))
    → read_entries (value_entry p) fuel p i
      ≡ done (item_nodes vs, at (i + (10 + length (write_items vs))))
read_last p fuel i vs lv w l h =
    let ws = write_items vs in
    let held = subst (IsHeld p i) (sym (append-nil (write_block ws))) h in
    let (m, d, pad, inside) = block-IsHeld p i ws [] held in
    read_entries-write_block (value_entry p) fuel p i ws [] (item_nodes vs) lv held (no_items vs)
      (entries-write_items p vs fuel (i + (10 + length ws)) (i + 10) [] w l (omega arith) inside)

-- The two blocks below a key, given how the entries of the first are read.
sub_keys-write_below :
    (entry : ℕ → Outcome (Node × Pointer)) (fuel : ℕ) (p : Memory) (i : ℕ) (ts : List ℕ)
    (ns : Nodes) (vs : List Item) (ys : List ℕ)
    → 10 + length ts < u32_mod
    → 10 + length (write_items vs) < u32_mod
    → IsItems vs
    → length vs < fuel
    → (length ts ≡ 0 → ns ≡ no_nodes)
    → ((k : ℕ) (zs : List ℕ)
        → IsHeld p k (ts ++ zs)
        → entries entry fuel (k + length ts) (at k) ≡ done (ns, at (k + length ts)))
    → IsHeld p i (write_block (write_below ts (write_items vs)) ++ ys)
    → sub_keys entry fuel p i
      ≡ done (join ns (item_nodes vs), at (i + (10 + length (write_below ts (write_items vs)))))
unfolding sub_keys join plus write_below
sub_keys-write_below entry fuel p i ts ns vs ys lt lv w l none_then keys h =
    let ws = write_items vs in
    let (m, unused, pad, inside) = block-IsHeld p i (write_below ts ws) ys h in
    let tail = write_descriptor (10 + length ws) 2 ++ write_block ws in
    let here = IsHeld-first p (i + 10) (write_below ts ws) ys inside in
    let (a, keys_type, first) =
      descriptor-IsHeld p (i + 10) (10 + length ts) 1 (write_block ts ++ tail) (omega arith) here in
    let (m', d', pad', entry_bytes) = block-IsHeld p (i + 10 + 10) ts tail first in
    let far : i + 10 + 10 + 10 + length ts ≡ i + 10 + 10 + (10 + length ts) = omega arith in
    let keys_read =
      subst (λ t. entries entry fuel t (at (i + 10 + 10 + 10)) ≡ done (ns, at t)) far
        (keys (i + 10 + 10 + 10) tail entry_bytes) in
    let read_keys =
      read_entries-write_block entry fuel p (i + 10 + 10) ts tail ns lt first none_then keys_read in
    let j = i + 10 + 10 + (10 + length ts) in
    let second =
      IsHeld-after p (i + 10 + 10) (10 + length ts) j (write_block ts) tail (length-write_block ts)
        refl first in
    let (b, values_type, third) =
      descriptor-IsHeld p j (10 + length ws) 2 (write_block ws) (omega arith) second in
    let read_values = read_last p fuel (j + 10) vs lv w l third in
    let good : magic p i == node_magic_num ≡ true = ground arith in
    let end : j + 10 + (10 + length ws) + 0 ≡ i + (10 + length (write_below ts ws)) =
      omega (arith, length-write_below ts ws) in
    rw good (
      rw (sub_key_keys entry fuel p no_nodes ns (i + 10) _ keys_type read_keys) (
        rw (sub_key_values entry fuel p ns (item_nodes vs) j _ values_type read_values)
          (rw pad (ap (λ t. done (join ns (item_nodes vs), at t)) end))))

length-write_tree :
    (name : List ℕ) (ts : Trees) (vs : List Item)
    → length (write_tree (tree name ts vs))
      ≡ 6 + length name + (10 + length (write_below (write_trees ts) (write_items vs)))
unfolding write_tree
length-write_tree name ts vs =
    let below = write_below (write_trees ts) (write_items vs) in
    omega (
      arith,
      length-append (write_name name (10 + length below)) (write_block below),
      length-write_name name (10 + length below),
      length-write_block below,
    )

pub some_bytes : (t : Tree) → 0 < length (write_tree t)
some_bytes (tree name ts vs) = omega (arith, length-write_tree name ts vs)

pub no_keys : (ts : Trees) → length (write_trees ts) ≡ 0 → tree_nodes ts ≡ no_nodes
unfolding write_trees tree_nodes
no_keys no_trees e = refl
no_keys (tree_then t ts) e =
    absurd (omega (arith, length-append (write_tree t) (write_trees ts), some_bytes t))

-- A key, given how the keys below it are read.
pub key_entry_step :
    (p : Memory) (name : List ℕ) (ts : Trees) (vs : List Item) (fuel i : ℕ) (ys : List ℕ)
    → IsTree (tree name ts vs)
    → length vs < fuel
    → IsHeld p i (write_tree (tree name ts vs) ++ ys)
    → ((k : ℕ) (zs : List ℕ)
        → IsHeld p k (write_trees ts ++ zs)
        → entries (key_entry fuel p) fuel (k + length (write_trees ts)) (at k)
          ≡ done (tree_nodes ts, at (k + length (write_trees ts))))
    → key_entry (suc fuel) p i
      ≡ done (tree_node (tree name ts vs), at (i + length (write_tree (tree name ts vs))))
unfolding write_tree tree_node IsTree key_entry
key_entry_step p name ts vs fuel i ys w l h keys =
    let below = write_below (write_trees ts) (write_items vs) in
    let head = write_name name (10 + length below) in
    let (size, read, rest) =
      name-IsHeld p i (10 + length below) name (write_block below ++ ys) w.0
        (subst (IsHeld p i) (append_assoc head (write_block below) ys) h) in
    let subs =
      sub_keys-write_below (key_entry fuel p) fuel p (i + 6 + length name) (write_trees ts)
        (tree_nodes ts) vs ys w.1 w.2 w.3.1 l (no_keys ts) keys rest in
    let end : i + 6 + length name + (10 + length below)
        ≡ i + length (write_tree (tree name ts vs)) =
      omega (arith, length-write_tree name ts vs) in
    rw size (
      rw subs (
        rw read
          (ap (λ t. done (node name key (join (tree_nodes ts) (item_nodes vs)) none, at t)) end)))
