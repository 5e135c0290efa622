-- ===== src/Blob/Values.antt =====
-- `ValueProperties`, `ValueEntry` and the loops over entries on written bytes.
use revive_emu.Base.{ℕ, ◌+◌, ◌<◌, true, some, List, [], ◌++◌, ◌==◌, ◌≡◌, refl, ap, subst, arith}
use revive_emu.Base.Bytes.{Memory, u32_mod}
use revive_emu.Base.Lists.{length, length-append}
use revive_emu.Base.Read.{read_le, read_bytes}
use revive_emu.Blob.{
  NodeValue, at, magic, data_length, null_padding, descriptor_type, node_magic_num, value_property,
  value_properties,
}
use revive_emu.Blob.Print.{
  Item, write_le, write_header, write_descriptor, write_name, write_block, write_value, IsItem,
}
use revive_emu.Blob.Held.{
  IsHeld, IsHeld-after, word-IsHeld, length-write_le, header-IsHeld, descriptor-IsHeld,
  read_bytes-IsHeld, IsHeld-first,
}
use mathlib.Core.List.{append_assoc}

pub length-write_header : (n : ℕ) → length (write_header n) ≡ 10
unfolding write_header
length-write_header n = omega (
  arith,
  length-append (write_le 2 node_magic_num) (write_le 4 (10 + n) ++ write_le 4 0),
  length-append (write_le 4 (10 + n)) (write_le 4 0),
  length-write_le 2 node_magic_num,
  length-write_le 4 (10 + n),
  length-write_le 4 0,
)

pub length-write_descriptor : (n type : ℕ) → length (write_descriptor n type) ≡ 10
unfolding write_descriptor
length-write_descriptor n type = omega (
  arith,
  length-append (write_le 2 4) (write_le 4 n ++ write_le 4 type),
  length-append (write_le 4 n) (write_le 4 type),
  length-write_le 2 4,
  length-write_le 4 n,
  length-write_le 4 type,
)

pub length-write_name : (name : List ℕ) (n : ℕ) → length (write_name name n) ≡ 6 + length name
unfolding write_name
length-write_name name n = omega (
  arith,
  length-append (write_le 2 (length name)) (write_le 4 n ++ name),
  length-append (write_le 4 n) name,
  length-write_le 2 (length name),
  length-write_le 4 n,
)

pub length-write_block : (bs : List ℕ) → length (write_block bs) ≡ 10 + length bs
unfolding write_block
length-write_block bs =
    omega (arith, length-append (write_header (length bs)) bs, length-write_header (length bs))

-- A block in memory: its header's fields, its bytes, and what follows.
pub block-IsHeld :
    (p : Memory) (i : ℕ) (bs ys : List ℕ)
    → IsHeld p i (write_block bs ++ ys)
    → (magic p i ≡ node_magic_num)
      × (10 + length bs < u32_mod → data_length p i ≡ 10 + length bs)
      × (null_padding p i ≡ 0)
      × IsHeld p (i + 10) (bs ++ ys)
unfolding write_block
block-IsHeld p i bs ys h =
    header-IsHeld p i (length bs) (bs ++ ys)
      (subst (IsHeld p i) (append_assoc (write_header (length bs)) bs ys) h)

value_property_type :
    (p : Memory) (v : NodeValue) (i t : ℕ)
    → descriptor_type p i ≡ 1
    → read_le 4 p (i + 10) ≡ t
    → value_property p (v, i) ≡ (record v { type_of = t }, i + 10 + 4)
unfolding value_property
value_property_type p v i t d e = rw d (rw e refl)

value_property_value :
    (p : Memory) (v : NodeValue) (i n : ℕ) (bs : List ℕ)
    → descriptor_type p i ≡ 2
    → data_length p i ≡ n
    → read_bytes p (i + 10) n ≡ bs
    → value_property p (v, i) ≡ (record v { value = bs }, i + 10 + n)
unfolding value_property
value_property_value p v i n bs d l e = rw d (rw l (rw e refl))

length-write_value : (v : Item) → length (write_value v) ≡ 24 + length v.bytes
unfolding write_value
length-write_value v = omega (
  arith,
  length-append (write_descriptor 4 1)
      (write_le 4 v.type_of ++ (write_descriptor (length v.bytes) 2 ++ v.bytes)),
  length-append (write_le 4 v.type_of) (write_descriptor (length v.bytes) 2 ++ v.bytes),
  length-append (write_descriptor (length v.bytes) 2) v.bytes,
  length-write_descriptor 4 1,
  length-write_le 4 v.type_of,
  length-write_descriptor (length v.bytes) 2,
)

pub value_properties-write_block :
    (p : Memory) (i : ℕ) (v : Item) (ys : List ℕ)
    → IsItem v
    → IsHeld p i (write_block (write_value v) ++ ys)
    → value_properties p i ≡ (
      some (record { type_of = v.type_of; value = v.bytes }),
      at (i + (10 + length (write_value v))),
    )
unfolding value_properties IsItem write_value
value_properties-write_block p i v ys w h =
    let last = write_descriptor (length v.bytes) 2 ++ v.bytes in
    let all = write_value v in
    let (m, unused, pad, inside) = block-IsHeld p i (write_value v) ys h in
    let here = IsHeld-first p (i + 10) (write_value v) ys inside in
    let (a, b, rest) =
      descriptor-IsHeld p (i + 10) 4 1 (write_le 4 v.type_of ++ last) (omega arith) here in
    let type = word-IsHeld p (i + 10 + 10) 4 v.type_of last w.1 rest in
    let second =
      IsHeld-after p (i + 10 + 10) 4 (i + 10 + 10 + 4) (write_le 4 v.type_of) last
        (length-write_le 4 v.type_of) refl rest in
    let (c, d, bytes) =
      descriptor-IsHeld p (i + 10 + 10 + 4) (length v.bytes) 2 v.bytes (omega arith) second in
    let empty : NodeValue = record { type_of = 0; value = [] } in
    let one = value_property_type p empty (i + 10) v.type_of b type in
    let two =
      value_property_value p (record empty { type_of = v.type_of }) (i + 10 + 10 + 4)
        (length v.bytes) v.bytes d (c w.2)
        (read_bytes-IsHeld p (i + 10 + 10 + 4 + 10) v.bytes bytes) in
    let good : magic p i == node_magic_num ≡ true = ground arith in
    let end : i + 10 + 10 + 4 + 10 + length v.bytes + 0 ≡ i + (10 + length (write_value v)) =
      omega (arith, length-write_value v) in
    rw good (
      rw one (
        rw two
          (rw pad (ap (λ t. (some (record { type_of = v.type_of; value = v.bytes }), at t)) end))))
