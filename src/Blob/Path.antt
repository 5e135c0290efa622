-- ===== src/Blob/Path.antt =====
-- `CBlobFileSystem::GetNodeByPath` (Steam/steam/BlobSystem/CBlobSystem.h). The call on a child passes
-- the component that `strtok` gave and not what follows it, and such a component is its own only one.
use revive_emu.Base.{ℕ, Option, none, some, List, [], ◌∷◌, ◌==◌, if◌then◌else◌}
use revive_emu.Base.Text.{same_text}
use revive_emu.Cache.Outcome.{Outcome, done, fault}
use revive_emu.Blob.{Node, Nodes, node, no_nodes, add}

-- The separator, '\\'
abbrev pub separator : ℕ
separator = 0x5C

-- The bytes before the first NUL.
unfoldable pub c_string : List ℕ → List ℕ
c_string [] = []
c_string (c ∷ cs) = let rest = c_string cs in if c == 0 then [] else c ∷ rest

-- A component that has begun, before the rest of the components.
unfoldable pub begin : List ℕ → List (List ℕ) → List (List ℕ)
begin [] ts = ts
begin (c ∷ cs) ts = (c ∷ cs) ∷ ts

-- What `strtok` gives call by call: the runs without separator. The first list is the run at the start.
unfoldable pub split : List ℕ → List ℕ × List (List ℕ)
split [] = ([], [])
split (c ∷ cs) =
    let rest = split cs in
    if c == separator then ([], begin rest.0 rest.1) else (c ∷ rest.0, rest.1)

unfoldable pub tokens : List ℕ → List (List ℕ)
tokens path = let r = split path in begin r.0 r.1

-- The first child of this name.
unfoldable pub child : List ℕ → Nodes → Option Node
child name no_nodes = none
child name (add (node n k ns v) rest) =
    let others = child name rest in
    if same_text (c_string n) name then some (node n k ns v) else others

unfoldable pub children : Node → Nodes
children (node n k ns v) = ns

-- `GetNodeByPath` of a parent with these children. A path without components is compared by a NULL.
unfoldable pub get_node : Nodes → List (List ℕ) → Outcome (Option Node)
get_node no_nodes ts = done none
get_node (add n ns) [] = fault
get_node (add n ns) (t ∷ []) = done (child t (add n ns))
get_node (add n ns) (t ∷ u ∷ ts) = elim (child t (add n ns)) [
  | none ↦ done none
  | some m ↦ done (child u (children m))
]

unfoldable pub get_node_by_path : Node → List ℕ → Outcome (Option Node)
get_node_by_path parent path = get_node (children parent) (tokens path)
