-- ===== src/MasterServer/KeyValues.antt =====
-- The table of key-value pairs of the master server updater against the map that it stands for.
use revive_emu.Base.{
  ℕ, suc, ◌<◌, ◌≡◌, ◌≢◌, ◌⊎◌, inl, inr, refl, ap, Bool, true, false, not, ◌&&◌, ◌||◌, Option, none,
  some, List, [], ◌∷◌, if◌then◌else◌, Bool-cases, Option-cases, arith,
}
use revive_emu.Base.Text.{same_text, same_text_left, same_text_right}
use revive_emu.Base.Lists.{length, take, take_all}
use revive_emu.Runtime.{MasterServerState, KeyValue}
use revive_emu.MasterServer.{
  copy_text, Slot, entry, vacant, nowhere, slot_of, note_free, find_slot, set_elem, set_value,
  write_slot, set_key_value,
}

-- The value of a key: that of the first used entry with it.
abbrev pub value_of : List ℕ → List KeyValue → Option (List ℕ)
value_of key [] = none
value_of key (e ∷ es) =
    let rest = value_of key es in if e.used && same_text e.key key then some e.value else rest

abbrev pub has_free : List KeyValue → Bool
has_free [] = false
has_free (e ∷ es) = not e.used || has_free es

-- The search told as a recursion on the table alone, with indices from 0.
abbrev up : Slot → Slot
up (entry i) = entry (suc i)
up (vacant i) = vacant (suc i)
up nowhere = nowhere

abbrev bump : Option ℕ → Option ℕ
bump none = none
bump (some i) = some (suc i)

find_slot-suc :
    (key : List ℕ) (i : ℕ) (free : Option ℕ) (es : List KeyValue)
    → find_slot key (suc i) (bump free) es ≡ up (find_slot key i free es)
unfolding find_slot slot_of note_free
find_slot-suc key i none [] = refl
find_slot-suc key i (some j) [] = refl
find_slot-suc key i none (e ∷ es) =
    ground (arith, find_slot-suc key (suc i) none es, find_slot-suc key (suc i) (some i) es)
find_slot-suc key i (some j) (e ∷ es) = ground (arith, find_slot-suc key (suc i) (some j) es)

-- The entry of the key is found whatever was noted on the way.
find_slot-present :
    (key : List ℕ) (i : ℕ) (free : Option ℕ) (es : List KeyValue)
    → value_of key es ≢ none
    → find_slot key i free es ≡ find_slot key i none es
unfolding find_slot
find_slot-present key i free [] h = absurd (h refl)
find_slot-present key i free (e ∷ es) h = ground (
  arith,
  find_slot-present key (suc i) (note_free e i free) es,
  find_slot-present key (suc i) (note_free e i none) es,
)

-- With a free slot noted and no entry of the key, the search ends in that slot.
find_slot-noted :
    (key : List ℕ) (i j : ℕ) (es : List KeyValue)
    → value_of key es ≡ none
    → find_slot key i (some j) es ≡ vacant j
unfolding find_slot slot_of note_free
find_slot-noted key i j [] h = refl
find_slot-noted key i j (e ∷ es) h = ground (arith, find_slot-noted key (suc i) j es)

-- The first entry of the key with its value replaced; the first free entry replaced.
abbrev replaced : List ℕ → List ℕ → List KeyValue → List KeyValue
replaced key value [] = []
replaced key value (e ∷ es) =
    let rest = replaced key value es in
    if e.used && same_text e.key key then record e { value = value } ∷ es else e ∷ rest

abbrev filled : KeyValue → List KeyValue → List KeyValue
filled x [] = []
filled x (e ∷ es) = let rest = filled x es in if not e.used then x ∷ es else e ∷ rest

entry_found :
    (key value : List ℕ) (es : List KeyValue)
    → value_of key es ≢ none
    → (pos : ℕ) × (find_slot key 0 none es ≡ entry pos)
      × (set_value pos value es ≡ replaced key value es)
unfolding find_slot set_value
entry_found key value [] h = absurd (h refl)
entry_found key value (e ∷ es) h = elim (Bool-cases (e.used && same_text e.key key)) [
  | inl here ↦ (0, ground arith, ground arith)
  | inr later ↦
      let there : value_of key es ≢ none = ground arith in
      let (pos, found, done) = entry_found key value es there in
      let next = find_slot-suc key 0 none es in
      let same = find_slot-present key 1 (note_free e 0 none) es there in
      (suc pos, ground (arith, next, same, found), ground (arith, done))
]

vacant_found :
    (key : List ℕ) (x : KeyValue) (es : List KeyValue)
    → value_of key es ≡ none
    → has_free es ≡ true
    → (pos : ℕ) × (find_slot key 0 none es ≡ vacant pos) × (set_elem pos x es ≡ filled x es)
unfolding find_slot set_elem note_free
vacant_found key x [] h free = absurd cc
vacant_found key x (e ∷ es) h free = elim (Bool-cases e.used) [
  | inr here ↦ (0, ground (arith, find_slot-noted key 1 0 es), ground arith)
  | inl busy ↦
      let there : value_of key es ≡ none = ground arith in
      let (pos, found, done) = vacant_found key x es there (ground arith) in
      let next = find_slot-suc key 0 none es in
      (suc pos, ground (arith, next, found), ground (arith, done))
]

value_of-replaced :
    (key other value : List ℕ) (es : List KeyValue)
    → value_of key es ≢ none
    → value_of other (replaced key value es)
      ≡ (if same_text key other then some value else value_of other es)
value_of-replaced key other value [] h = absurd (h refl)
value_of-replaced key other value (e ∷ es) h = ground (
  arith,
  value_of-replaced key other value es,
  same_text_left e.key key other,
  same_text_right e.key key other,
)

value_of-filled :
    (key other : List ℕ) (x : KeyValue) (es : List KeyValue)
    → x.used ≡ true
    → x.key ≡ key
    → value_of key es ≡ none
    → has_free es ≡ true
    → value_of other (filled x es)
      ≡ (if same_text key other then some x.value else value_of other es)
value_of-filled key other x [] u k h free = absurd cc
value_of-filled key other x (e ∷ es) u k h free = ground (
  arith,
  value_of-filled key other x es u k,
  ap (λ (t : List ℕ). same_text t other) k,
  same_text_right e.key key other,
)

-- A write in terms of the map.
abbrev pub Sets : List ℕ → Option (List ℕ) → List ℕ → MasterServerState → MasterServerState → Type 0
Sets key value other m m' =
    value_of other m'.key_values
    ≡ (if same_text key other then some (copy_text 128 value) else value_of other m.key_values)

-- For a key of 1 to 63 bytes that is in the table, or with a free entry, setting a value makes the
-- look-up of that key give the value, cut to 127 bytes and empty for NULL, and changes the look-up
-- of no other key.
pub set_key_value_lem :
    (m : MasterServerState) (c : ℕ) (rest : List ℕ) (value : Option (List ℕ)) (other : List ℕ)
    → length (c ∷ rest) < 64
    → (value_of (c ∷ rest) m.key_values ≢ none) ⊎ (has_free m.key_values ≡ true)
    → Sets (c ∷ rest) value other m (set_key_value m (some (c ∷ rest)) value)
unfolding set_key_value write_slot copy_text
set_key_value_lem m c rest value other short room =
    let key : List ℕ = c ∷ rest in
    let text : List ℕ = copy_text 128 value in
    let cut : take 63 key ≡ key = take_all 63 key (omega arith) in
    elim (Option-cases (value_of key m.key_values)) [
      | inr (old, present) ↦
          let there : value_of key m.key_values ≢ none = ground (arith, present) in
          let (pos, found, done) = entry_found key text m.key_values there in
          rw (found, done) (value_of-replaced key other text m.key_values there)
      | inl absent ↦
          let free : has_free m.key_values ≡ true = ground (arith, room) in
          let x : KeyValue = record { used = true; key = take 63 key; value = text } in
          let (pos, found, done) = vacant_found key x m.key_values absent free in
          rw (found, done) (value_of-filled key other x m.key_values refl cut absent free)
    ]
