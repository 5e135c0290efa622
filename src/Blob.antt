-- ===== src/Blob.antt =====
-- Steam/steam/BlobSystem (CBlobNode.h, BlobSystemCommon.h): `CBlobNode::Populate` builds the tree of a
-- blob from its bytes in memory. A block whose magic number is wrong gives NULL, to which the callers
-- go on adding; an access near NULL is a `fault`. The fuel bounds the depth of keys and the entries of
-- a block; the loop over a block moves on in each round, and only keys can nest without end.
pub mod Path
pub mod Print
pub mod Held
pub mod Values
pub mod Items
pub mod Keys
pub mod RoundTrip
pub mod Records
mod Tests
use revive_emu.Base.{
  ℕ, zero, suc, ◌+◌, Bool, true, false, not, Option, none, some, List, [], ◌∷◌, ◌==◌, ltb,
  if◌then◌else◌,
}
use revive_emu.Base.Bytes.{Memory}
use revive_emu.Base.Read.{read_le, read_bytes}
use revive_emu.Cache.Outcome.{Outcome, done, fault, out_of_fuel, ◌>>=◌}

-- TNodeValue; the value is NULL of size 0 until it is set.
pub record NodeValue : Type 0 where
  pub type_of : ℕ
  pub value : List ℕ

-- ESteamBlobNodeType
pub data NodeType : Type 0 where
  key value : NodeType

-- CBlobNode
mutual
  pub data Node : Type 0 where
    node : List ℕ → NodeType → Nodes → Option NodeValue → Node

  pub data Nodes : Type 0 where
    no_nodes : Nodes
    add : Node → Nodes → Nodes

-- The nodes that a second block pushes behind those of the first.
unfoldable pub join : Nodes → Nodes → Nodes
join no_nodes ms = ms
join (add n ns) ms = add n (join ns ms)

-- A place in the blob, or NULL and what was added to it.
pub data Pointer : Type 0 where
  at null : ℕ → Pointer

unfoldable pub plus : Pointer → ℕ → Pointer
plus (at i) n = at (i + n)
plus (null i) n = null (i + n)

-- NodeMagicNum
abbrev pub node_magic_num : ℕ
node_magic_num = 0x5001

-- TNodeHeader: its magic number, and the two words, which TDescriptorNode has at the same places as
-- its length and its type.
unfoldable pub magic : Memory → ℕ → ℕ
magic p i = read_le 2 p i

unfoldable pub data_length : Memory → ℕ → ℕ
data_length p i = read_le 4 p (i + 2)

unfoldable pub null_padding : Memory → ℕ → ℕ
null_padding p i = read_le 4 p (i + 6)

unfoldable pub descriptor_type : Memory → ℕ → ℕ
descriptor_type p i = read_le 4 p (i + 6)

-- `DescriptorLength` as a `short`: a negative one makes an array of a negative size.
unfoldable pub name_length : Memory → ℕ → Outcome ℕ
name_length p i = let n = read_le 2 p i in if ltb n 0x8000 then done n else fault

-- The loop over the entries of a block, from a pointer to the block's end.
unfoldable pub entries :
    (ℕ → Outcome (Node × Pointer)) → ℕ → ℕ → Pointer → Outcome (Nodes × Pointer)
entries entry zero end place = out_of_fuel
entries entry (suc fuel) end (null zero) = done (no_nodes, null 0)
entries entry (suc fuel) end (null (suc n)) = fault
entries entry (suc fuel) end (at i) =
    if ltb i end
    then (entry i >>= λ (n, place).
        entries entry fuel end place >>= λ (ns, place'). done (add n ns, place'))
    else done (no_nodes, at i)

-- `KeyEntries` and `ValueEntries`, which differ in the entry that they read.
unfoldable pub read_entries :
    (ℕ → Outcome (Node × Pointer)) → ℕ → Memory → ℕ → Outcome (Nodes × Pointer)
read_entries entry fuel p i =
    if magic p i == node_magic_num
    then (if data_length p i == 10
        then done (no_nodes, at (i + 10 + null_padding p i))
        else (entries entry fuel (i + data_length p i) (at (i + 10)) >>= λ (ns, place).
            done (ns, plus place (null_padding p i))))
    else done (no_nodes, null 0)

-- A round of the loop of `ValueProperties`.
unfoldable pub value_property : Memory → NodeValue × ℕ → NodeValue × ℕ
value_property p (v, i) =
    if descriptor_type p i == 1
    then (record v { type_of = read_le 4 p (i + 10) }, i + 10 + 4)
    else if descriptor_type p i == 2
    then (record v { value = read_bytes p (i + 10) (data_length p i) }, i + 10 + data_length p i)
    else (v, i + 10)

-- `ValueProperties`
unfoldable pub value_properties : Memory → ℕ → Option NodeValue × Pointer
value_properties p i =
    if magic p i == node_magic_num
    then (let (v, j) =
          value_property p (value_property p (record { type_of = 0; value = [] }, i + 10)) in
        (some v, at (j + null_padding p i)))
    else (none, null 0)

-- `ValueEntry`
unfoldable pub value_entry : Memory → ℕ → Outcome (Node × Pointer)
value_entry p i = name_length p i >>= λ n.
    let (v, place) = value_properties p (i + 6 + n) in
    done (node (read_bytes p (i + 6) n) value no_nodes v, place)

-- A round of the loop of `SubKeys`.
unfoldable pub sub_key :
    (ℕ → Outcome (Node × Pointer)) → ℕ → Memory → Nodes × Pointer → Outcome (Nodes × Pointer)
sub_key entry fuel p (ns, null i) = fault
sub_key entry fuel p (ns, at i) =
    if descriptor_type p i == 1
    then (read_entries entry fuel p (i + 10) >>= λ (ms, place). done (join ns ms, place))
    else if descriptor_type p i == 2
    then (read_entries (value_entry p) fuel p (i + 10) >>= λ (ms, place). done (join ns ms, place))
    else done (ns, at (i + 10))

-- `SubKeys`
unfoldable pub sub_keys :
    (ℕ → Outcome (Node × Pointer)) → ℕ → Memory → ℕ → Outcome (Nodes × Pointer)
sub_keys entry fuel p i =
    if magic p i == node_magic_num
    then (sub_key entry fuel p (no_nodes, at (i + 10)) >>= λ r.
        sub_key entry fuel p r >>= λ (ns, place). done (ns, plus place (null_padding p i)))
    else done (no_nodes, null 0)

-- `KeyEntry`
unfoldable pub key_entry : ℕ → Memory → ℕ → Outcome (Node × Pointer)
key_entry zero p i = out_of_fuel
key_entry (suc fuel) p i = name_length p i >>= λ n.
    sub_keys (key_entry fuel p) fuel p (i + 6 + n) >>= λ (ns, place).
    done (node (read_bytes p (i + 6) n) key ns none, place)

-- `Populate` of a new node, which stays empty if the magic number is wrong.
unfoldable pub populate : ℕ → Memory → Outcome (Option Node)
populate fuel p =
    if magic p 0 == node_magic_num
    then (key_entry fuel p 10 >>= λ (n, place). done (some n))
    else done none
