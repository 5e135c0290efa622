-- ===== src/Blob/Tests.antt =====
-- Runs on a blob with a key in a key, and a value in that.
use revive_emu.Base.{ℕ, ◌+◌, ◌≡◌, refl, sym, subst, arith, Option, none, some, List, [], ◌∷◌, ◌++◌}
use revive_emu.Base.Bytes.{Memory}
use revive_emu.Base.Lists.{length, length-append, get_elem?}
use revive_emu.Base.Text.{same_text}
use revive_emu.Cache.Outcome.{done}
use revive_emu.Blob.{
  Node, node, key, no_nodes, add, at, magic, data_length, descriptor_type, null_padding, populate,
}
use revive_emu.Blob.Path.{
  separator, get_node_by_path, get_node, tokens, split, begin, child, children, c_string,
}
use revive_emu.Blob.Print.{
  Item, Tree, tree, no_trees, tree_then, write_blob, tree_node, IsTree, IsTrees, IsItems, IsItem,
  nodes_of, nodes_of_all, write_le, write_header, write_descriptor, write_name, write_block,
  write_value, write_item, write_items, write_below, write_tree, write_trees,
}
use revive_emu.Blob.Held.{IsHeld}
use revive_emu.Base.Read.{read_le, read_bytes}
use revive_emu.Blob.Records.{
  read_launch_ids, launch_ids, enumerate_filesystem, enumerate, fields, filesystem_field,
  new_filesystem_record,
}
use revive_emu.Blob.Records.Launch.{write_ids, words_behind, read_launch_ids-write_ids}
use revive_emu.Blob.RoundTrip.{populate-write_blob}
use mathlib.Core.List.{append-nil, append_assoc}

-- The memory that holds a list from 0 on.
byte_of : Option ℕ → ℕ
byte_of none = 0
byte_of (some b) = b

abbrev memory_of : List ℕ → Memory
memory_of bs i = byte_of (get_elem? bs i)

byte_there : (pre bs : List ℕ) (b : ℕ) → memory_of (pre ++ b ∷ bs) (length pre) ≡ b
unfolding byte_of
byte_there [] bs b = refl
byte_there (x ∷ pre) bs b = byte_there pre bs b

memory_of-IsHeld : (pre bs : List ℕ) → IsHeld (memory_of (pre ++ bs)) (length pre) bs
unfolding IsHeld
memory_of-IsHeld pre [] = tt
memory_of-IsHeld pre (b ∷ bs) =
    let longer : length (pre ++ b ∷ []) ≡ length pre + 1 = length-append pre (b ∷ []) in
    let same = append_assoc pre (b ∷ []) bs in
    (
      byte_there pre bs b,
      subst (λ l. IsHeld (memory_of l) (length pre + 1) bs) same
          (subst (λ k. IsHeld (memory_of ((pre ++ b ∷ []) ++ bs)) k bs) longer
            (memory_of-IsHeld (pre ++ b ∷ []) bs)),
    )

-- The value "v" of type 2 with the bytes 7 and 8, in the key "k" in the key "t".
abbrev small_item : Item
small_item = record { name = 0x76 ∷ []; type_of = 2; bytes = 7 ∷ 8 ∷ [] }

abbrev small_tree : Tree
small_tree = tree (0x74 ∷ []) (tree_then (tree (0x6B ∷ []) no_trees (small_item ∷ [])) no_trees) []

small_tree-IsTree : IsTree small_tree
unfolding IsTree IsTrees IsItems IsItem write_le write_header write_descriptor write_name
    write_block write_value write_item write_items write_below write_tree write_trees
small_tree-IsTree = omega arith

populate-write_blob_example :
    populate 7 (memory_of (write_blob small_tree)) ≡ done (some (tree_node small_tree))
unfolding nodes_of nodes_of_all
populate-write_blob_example =
    populate-write_blob (memory_of (write_blob small_tree)) small_tree 7 small_tree-IsTree
      (omega arith) (memory_of-IsHeld [] (write_blob small_tree))

-- "a\b" and "a\b\c" from a node with the child "a", whose child "b" has the child "c".
abbrev leaf : ℕ → Node
leaf c = node (c ∷ []) key no_nodes none

abbrev two_deep : Node
two_deep = node (0x62 ∷ []) key (add (leaf 0x63) no_nodes) none

abbrev top : Node
top = node [] key (add (node (0x61 ∷ []) key (add two_deep no_nodes) none) no_nodes) none

path_run : get_node_by_path top (0x61 ∷ separator ∷ 0x62 ∷ []) ≡ done (some two_deep)
unfolding get_node_by_path get_node tokens split begin child children c_string same_text
path_run = refl

-- The third component has no effect.
deep_path_run :
    get_node_by_path top (0x61 ∷ separator ∷ 0x62 ∷ separator ∷ 0x63 ∷ []) ≡ done (some two_deep)
unfolding get_node_by_path get_node tokens split begin child children c_string same_text
deep_path_run = refl

-- The ids 9 and 5, and nothing behind them.
abbrev two_ids : List ℕ
two_ids = write_block (write_ids (9 ∷ 5 ∷ []))

read_launch_ids-write_ids_example :
    read_launch_ids 3 (memory_of two_ids) 0
    ≡ done (
        words_behind
          (9 ∷ 5 ∷ [])
          (read_le 4 (memory_of two_ids) (0 + 10 + length (write_ids (9 ∷ 5 ∷ [])))))
unfolding write_ids write_descriptor write_le
read_launch_ids-write_ids_example =
    read_launch_ids-write_ids 3 (memory_of two_ids) 0 (9 ∷ 5 ∷ []) [] (omega arith) (omega arith) (
      subst (IsHeld (memory_of two_ids) 0) (sym (append-nil two_ids)) (memory_of-IsHeld [] two_ids))

-- What the program makes of them.
read_launch_ids_run : read_launch_ids 3 (memory_of two_ids) 0 ≡ done (4 ∷ 0 ∷ [])
unfolding read_launch_ids launch_ids magic data_length read_le byte_of write_block write_header
    write_ids write_descriptor write_le
read_launch_ids_run = refl

-- A filesystem record with the app 7 and a field of the unknown type 9.
abbrev filesystem_bytes : List ℕ
filesystem_bytes =
    write_block (write_descriptor 4 1 ++ (write_le 4 7 ++ (write_descriptor 1 9 ++ 0xFF ∷ [])))

enumerate_filesystem_run :
    enumerate_filesystem 5 (memory_of filesystem_bytes) 0
    ≡ done (record new_filesystem_record { app_id = 7 }, at 35)
unfolding enumerate_filesystem enumerate fields filesystem_field new_filesystem_record magic
    data_length descriptor_type null_padding read_le read_bytes byte_of write_block write_header
    write_descriptor write_le
enumerate_filesystem_run = refl
