-- ===== src/Blob/Print.antt =====
-- A writer of blobs: a tree of keys with values as the bytes of Steam/steam/BlobSystem's format, with
-- no padding. Each length that the reader passes over is written as it counts the bytes behind it.
use revive_emu.Base.{ℕ, zero, suc, ◌+◌, ◌/◌, ◌%◌, ◌<◌, none, some, List, [], ◌∷◌, ◌++◌}
use revive_emu.Base.Lists.{length}
use revive_emu.Base.Bytes.{u32_mod}
use revive_emu.Blob.{Node, Nodes, node, no_nodes, add, key, value, join, node_magic_num}

-- A value under its name.
pub record Item : Type 0 where
  pub name : List ℕ
  pub type_of : ℕ
  pub bytes : List ℕ

-- A key with the keys and values below it.
mutual
  pub data Tree : Type 0 where
    tree : List ℕ → Trees → List Item → Tree

  pub data Trees : Type 0 where
    no_trees : Trees
    tree_then : Tree → Trees → Trees

-- The number `x` in `n` bytes, the low ones first.
unfoldable pub write_le : ℕ → ℕ → List ℕ
write_le zero x = []
write_le (suc n) x = x % 256 ∷ write_le n (x / 256)

-- TNodeHeader, of a block with `n` bytes behind it.
unfoldable pub write_header : ℕ → List ℕ
write_header n = write_le 2 node_magic_num ++ (write_le 4 (10 + n) ++ write_le 4 0)

-- TDescriptorNode
unfoldable pub write_descriptor : ℕ → ℕ → List ℕ
write_descriptor n type = write_le 2 4 ++ (write_le 4 n ++ write_le 4 type)

-- TNode, with the name.
unfoldable pub write_name : List ℕ → ℕ → List ℕ
write_name name n = write_le 2 (length name) ++ (write_le 4 n ++ name)

unfoldable pub write_block : List ℕ → List ℕ
write_block bs = write_header (length bs) ++ bs

unfoldable pub write_value : Item → List ℕ
write_value v =
    write_descriptor 4 1
    ++ (write_le 4 v.type_of ++ (write_descriptor (length v.bytes) 2 ++ v.bytes))

unfoldable pub write_item : Item → List ℕ
write_item v = write_name v.name (10 + length (write_value v)) ++ write_block (write_value v)

unfoldable pub write_items : List Item → List ℕ
write_items [] = []
write_items (v ∷ vs) = write_item v ++ write_items vs

-- The two blocks below a key.
unfoldable pub write_below : List ℕ → List ℕ → List ℕ
write_below ts vs =
    write_descriptor (10 + length ts) 1
    ++ (write_block ts ++ (write_descriptor (10 + length vs) 2 ++ write_block vs))

unfoldable mutual
  pub write_tree : Tree → List ℕ
  write_tree (tree name ts vs) =
      write_name name (10 + length (write_below (write_trees ts) (write_items vs)))
      ++ write_block (write_below (write_trees ts) (write_items vs))

  pub write_trees : Trees → List ℕ
  write_trees no_trees = []
  write_trees (tree_then t ts) = write_tree t ++ write_trees ts

-- A blob with the tree at its top.
unfoldable pub write_blob : Tree → List ℕ
write_blob t = write_header (length (write_tree t)) ++ write_tree t

-- The nodes that the reader makes of a tree.
unfoldable pub item_node : Item → Node
item_node v = node v.name value no_nodes (some (record { type_of = v.type_of; value = v.bytes }))

unfoldable pub item_nodes : List Item → Nodes
item_nodes [] = no_nodes
item_nodes (v ∷ vs) = add (item_node v) (item_nodes vs)

unfoldable mutual
  pub tree_node : Tree → Node
  tree_node (tree name ts vs) = node name key (join (tree_nodes ts) (item_nodes vs)) none

  pub tree_nodes : Trees → Nodes
  tree_nodes no_trees = no_nodes
  tree_nodes (tree_then t ts) = add (tree_node t) (tree_nodes ts)

-- Names shorter than 2 ^ 15, and types and lengths in their words.
unfoldable pub IsItem : Item → Type 0
IsItem v = (length v.name < 0x8000) × (v.type_of < u32_mod) × (length v.bytes < u32_mod)

unfoldable pub IsItems : List Item → Type 0
IsItems [] = Unit
IsItems (v ∷ vs) = IsItem v × IsItems vs

unfoldable mutual
  pub IsTree : Tree → Type 0
  IsTree (tree name ts vs) =
      (length name < 0x8000)
      × (10 + length (write_trees ts) < u32_mod)
      × (10 + length (write_items vs) < u32_mod)
      × (IsTrees ts × IsItems vs)

  pub IsTrees : Trees → Type 0
  IsTrees no_trees = Unit
  IsTrees (tree_then t ts) = IsTree t × IsTrees ts

-- Fuel for a tree: more than its keys and values together.
unfoldable mutual
  pub nodes_of : Tree → ℕ
  nodes_of (tree name ts vs) = suc (nodes_of_all ts + length vs + 1)

  pub nodes_of_all : Trees → ℕ
  nodes_of_all no_trees = 1
  nodes_of_all (tree_then t ts) = nodes_of t + nodes_of_all ts
