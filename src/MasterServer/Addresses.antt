-- ===== src/MasterServer/Addresses.antt =====
-- The array of master server addresses against the list that it stands for: its first
-- `masterServerCount` elements.
use revive_emu.Base.{
  ℕ, suc, ◌+◌, ◌-◌, ◌≤◌, ◌<◌, ◌≡◌, inl, inr, refl, ◌∙◌, sym, ap, subst, Bool, true, false, ◌||◌,
  none, some, List, [], ◌∷◌, ◌++◌, ltb, leb, if◌then◌else◌, Bool-cases, arith,
}
use revive_emu.Base.Lists.{length, take}
use revive_emu.Runtime.{MasterServerState}
use revive_emu.MasterServer.Occurrence.{
  delete_at, length-set_elem, take-set_elem, take-suc-set_elem, shift_deletes, length-shift_loop,
  find_cases, contains, erase_first, erase_first_absent,
}
use revive_emu.MasterServer.{
  copy_text, find_master_server, add_address, add_master_server, set_elem, shift_loop, remove_at,
  remove_master_server,
}

abbrev pub addresses : MasterServerState → List (List ℕ)
addresses m = take m.master_server_count m.master_servers

-- The array has its 16 elements and the count stays within them.
pub record IsAddressTable (m : MasterServerState) : Type 0 where
  pub sixteen : length m.master_servers ≡ 16
  pub within : m.master_server_count ≤ 16

-- The outcome of an add and of a removal in terms of the list.
abbrev pub Adds : MasterServerState → List ℕ → MasterServerState × Bool → Type 0
Adds m a r =
    (addresses r.0 ≡ (
      if contains a (addresses m) || leb 16 m.master_server_count
      then addresses m
      else addresses m ++ take 127 a ∷ []))
    × (r.1 ≡ (contains a (addresses m) || ltb m.master_server_count 16))
    × IsAddressTable r.0

abbrev pub Removes : MasterServerState → List ℕ → MasterServerState × Bool → Type 0
Removes m a r =
    (addresses r.0 ≡ erase_first a (addresses m))
    × (r.1 ≡ contains a (addresses m))
    × IsAddressTable r.0

added : MasterServerState → List ℕ → MasterServerState
added m a = record m {
  master_servers = set_elem m.master_server_count (take 127 a) m.master_servers;
  master_server_count = m.master_server_count + 1;
}

add_address_full :
    (m : MasterServerState) (a : List ℕ)
    → find_master_server a m.master_server_count m.master_servers ≡ none
    → leb 16 m.master_server_count ≡ true
    → add_address m a ≡ (m, false)
unfolding add_address
add_address_full m a e full = ground arith

add_address_room :
    (m : MasterServerState) (a : List ℕ)
    → find_master_server a m.master_server_count m.master_servers ≡ none
    → leb 16 m.master_server_count ≡ false
    → add_address m a ≡ (added m a, true)
unfolding add_address copy_text added
add_address_room m a e room = ground arith

add_address_present :
    (m : MasterServerState) (a : List ℕ) (pos : ℕ)
    → find_master_server a m.master_server_count m.master_servers ≡ some pos
    → add_address m a ≡ (m, true)
unfolding add_address
add_address_present m a pos e = ground arith

added-Adds :
    (m : MasterServerState) (a : List ℕ)
    → IsAddressTable m
    → contains a (addresses m) ≡ false
    → leb 16 m.master_server_count ≡ false
    → Adds m a (added m a, true)
unfolding added
added-Adds m a t new room =
    let n : ℕ = m.master_server_count in
    let next : n + 1 ≡ suc n = omega arith in
    (
      ap (λ (k : ℕ). take k (set_elem n (take 127 a) m.master_servers)) next
          ∙ take-suc-set_elem n (take 127 a) m.master_servers (ground (arith, t.sixteen))
          ∙ rw (new, room) refl,
      ground arith,
      record {
        sixteen = length-set_elem n (take 127 a) m.master_servers ∙ t.sixteen;
        within = ground arith;
      },
    )

-- On an array of 16 places with its count in bounds, an add of a text that is not empty gives the
-- counted addresses with the text, cut to 127 bytes, at their end, or leaves them as they were if
-- the text is among them or the array is full; it answers true exactly if the text was among them
-- or there was room; and the array stays in bounds.
pub add_master_server_lem :
    (m : MasterServerState) (c : ℕ) (rest : List ℕ)
    → IsAddressTable m
    → Adds m (c ∷ rest) (add_master_server m (some (c ∷ rest)))
unfolding add_master_server
add_master_server_lem m c rest t =
    let a : List ℕ = c ∷ rest in
    elim (find_cases a m.master_server_count m.master_servers) [
      | inr (pos, found, held, h, e) ↦
          subst (Adds m a) (sym (add_address_present m a pos found)) (ground arith, ground arith, t)
      | inl (absent, new) ↦ elim (Bool-cases (leb 16 m.master_server_count)) [
        | inl full ↦
            subst (Adds m a) (sym (add_address_full m a absent full))
              (ground arith, ground arith, t)
        | inr room ↦
            subst (Adds m a) (sym (add_address_room m a absent room)) (added-Adds m a t new room)
      ]
    ]

remove_present :
    (m : MasterServerState) (c : ℕ) (rest : List ℕ) (pos : ℕ)
    → find_master_server (c ∷ rest) m.master_server_count m.master_servers ≡ some pos
    → remove_master_server m (some (c ∷ rest)) ≡ (remove_at m pos, true)
unfolding remove_master_server
remove_present m c rest pos e = ground arith

remove_absent :
    (m : MasterServerState) (c : ℕ) (rest : List ℕ)
    → find_master_server (c ∷ rest) m.master_server_count m.master_servers ≡ none
    → remove_master_server m (some (c ∷ rest)) ≡ (m, false)
unfolding remove_master_server
remove_absent m c rest e = ground arith

remove_at-Removes :
    (m : MasterServerState) (a : List ℕ) (pos : ℕ)
    → IsAddressTable m
    → contains a (addresses m) ≡ true
    → pos < m.master_server_count
    → erase_first a (addresses m) ≡ delete_at pos (addresses m)
    → Removes m a (remove_at m pos, true)
unfolding remove_at
remove_at-Removes m a pos t held h e =
    let n : ℕ = m.master_server_count in
    let shifted : List (List ℕ) = shift_loop (n - suc pos) (suc pos) m.master_servers in
    let less : suc (n - 1) ≡ n = omega arith in
    (
      take-set_elem (n - 1) [] shifted
          ∙ shift_deletes pos (n - suc pos) (n - 1) m.master_servers (omega arith)
              (omega (arith, t.sixteen, t.within))
          ∙ ap (λ (k : ℕ). delete_at pos (take k m.master_servers)) less
          ∙ sym e,
      sym held,
      record {
        sixteen =
            length-set_elem (n - 1) [] shifted
            ∙ length-shift_loop (n - suc pos) (suc pos) m.master_servers
            ∙ t.sixteen;
        within = omega (arith, t.within);
      },
    )

-- On an array of 16 places with its count in bounds, a removal of a text that is not empty gives
-- the counted addresses without its first occurrence, in order; it answers true exactly if the
-- text was among them; and the array stays in bounds.
pub remove_master_server_lem :
    (m : MasterServerState) (c : ℕ) (rest : List ℕ)
    → IsAddressTable m
    → Removes m (c ∷ rest) (remove_master_server m (some (c ∷ rest)))
remove_master_server_lem m c rest t =
    let a : List ℕ = c ∷ rest in
    elim (find_cases a m.master_server_count m.master_servers) [
      | inl (absent, new) ↦
          subst (Removes m a) (sym (remove_absent m c rest absent))
            (sym (erase_first_absent a (addresses m) new), sym new, t)
      | inr (pos, found, held, h, e) ↦
          subst (Removes m a) (sym (remove_present m c rest pos found))
            (remove_at-Removes m a pos t held h e)
    ]

-- On an array of 16 places with its count in bounds, an add of a text that is not empty gives the
-- counted addresses with the text, cut to 127 bytes, at their end, or leaves them as they were if
-- the text is among them or the array is full, and answers true exactly if the text was among them
-- or there was room; a removal of it gives the counted addresses without its first occurrence, in
-- order, and answers true exactly if the text was among them; and either way the array stays in
-- bounds.
pub edit_addresses :
    (m : MasterServerState) (c : ℕ) (rest : List ℕ)
    → IsAddressTable m
    → Adds m (c ∷ rest) (add_master_server m (some (c ∷ rest)))
      × Removes m (c ∷ rest) (remove_master_server m (some (c ∷ rest)))
edit_addresses m c rest t = (add_master_server_lem m c rest t, remove_master_server_lem m c rest t)
