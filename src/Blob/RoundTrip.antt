-- ===== src/Blob/RoundTrip.antt =====
-- The reader on written trees of keys.
use revive_emu.Base.{
  ℕ, zero, suc, ◌+◌, ◌<◌, ◌≤◌, true, some, List, [], ◌++◌, ◌==◌, ◌≡◌, refl, sym, subst, arith,
}
use revive_emu.Base.Bytes.{Memory}
use revive_emu.Base.Lists.{length, length-append}
use revive_emu.Cache.Outcome.{done}
use revive_emu.Blob.{at, magic, node_magic_num, entries, key_entry, populate}
use revive_emu.Blob.Print.{
  Tree, Trees, tree, no_trees, tree_then, write_tree, write_trees, write_blob, tree_node,
  tree_nodes, IsTree, IsTrees, nodes_of, nodes_of_all,
}
use revive_emu.Blob.Held.{IsHeld, IsHeld-after, header-IsHeld}
use revive_emu.Blob.Keys.{some_bytes, key_entry_step}
use revive_emu.Blob.Items.{entries_step, entries_end}
use mathlib.Core.List.{append_assoc, append-nil}

some_nodes : (ts : Trees) → 0 < nodes_of_all ts
unfolding nodes_of_all
some_nodes no_trees = omega arith
some_nodes (tree_then t ts) = omega (arith, some_nodes ts)

some_count : (t : Tree) → 0 < nodes_of t
unfolding nodes_of
some_count (tree name ts vs) = omega arith

mutual
  unfolding write_trees tree_nodes IsTree IsTrees nodes_of nodes_of_all

  key_entry-write_tree :
      (p : Memory) (t : Tree) (fuel i : ℕ) (ys : List ℕ)
      → IsTree t
      → nodes_of t ≤ fuel
      → IsHeld p i (write_tree t ++ ys)
      → key_entry fuel p i ≡ done (tree_node t, at (i + length (write_tree t)))
  key_entry-write_tree p (tree name ts vs) zero i ys w l h = absurd (omega arith)
  key_entry-write_tree p (tree name ts vs) (suc fuel) i ys w l h =
      key_entry_step p name ts vs fuel i ys w (omega (arith, some_nodes ts)) h (λ k zs held.
        entries-write_trees p ts fuel fuel (k + length (write_trees ts)) k zs w.3.0 (omega arith)
          (omega arith) refl held)

  entries-write_trees :
      (p : Memory) (ts : Trees) (inner fuel end i : ℕ) (ys : List ℕ)
      → IsTrees ts
      → nodes_of_all ts ≤ inner
      → nodes_of_all ts ≤ fuel
      → i + length (write_trees ts) ≡ end
      → IsHeld p i (write_trees ts ++ ys)
      → entries (key_entry inner p) fuel end (at i) ≡ done (tree_nodes ts, at end)
  entries-write_trees p ts inner zero end i ys w l k e h = absurd (omega (arith, some_nodes ts))
  entries-write_trees p no_trees inner (suc fuel) end i ys w l k e h =
      entries_end (key_entry inner p) fuel end i (omega arith)
  entries-write_trees p (tree_then t ts) inner (suc fuel) end i ys w l k e h =
      let held = subst (IsHeld p i) (append_assoc (write_tree t) (write_trees ts) ys) h in
      let size = length-append (write_tree t) (write_trees ts) in
      let positive = some_bytes t in
      let counted = some_count t in
      let next =
        IsHeld-after p i (length (write_tree t)) (i + length (write_tree t)) (write_tree t)
          (write_trees ts ++ ys) refl refl held in
      entries_step (key_entry inner p) fuel end i (i + length (write_tree t)) (tree_node t)
        (tree_nodes ts) (omega arith)
        (key_entry-write_tree p t inner i (write_trees ts ++ ys) w.0 (omega (arith, some_nodes ts))
          held)
        (entries-write_trees p ts inner fuel end (i + length (write_tree t)) ys w.1 (omega arith)
          (omega arith) (omega arith) next)

-- Bytes in memory that a tree of keys and values was written to, with names shorter than 2 ^ 15
-- and with types, values and the blocks of a key below 2 ^ 32, are read back by `Populate` to that
-- tree, with fuel for its keys and values.
pub populate-write_blob :
    (p : Memory) (t : Tree) (fuel : ℕ)
    → IsTree t
    → nodes_of t ≤ fuel
    → IsHeld p 0 (write_blob t)
    → populate fuel p ≡ done (some (tree_node t))
unfolding populate write_blob
populate-write_blob p t fuel w l h =
    let (m, d, pad, inside) = header-IsHeld p 0 (length (write_tree t)) (write_tree t) h in
    let held = subst (IsHeld p 10) (sym (append-nil (write_tree t))) inside in
    let good : magic p 0 == node_magic_num ≡ true = ground arith in
    rw good (rw (key_entry-write_tree p t fuel 10 [] w l held) refl)
