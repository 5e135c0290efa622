-- ===== src/MasterServer/Repeat.antt =====
-- Adding and removing one address in turn, for an address that fits its place and for one that
-- does not.
use revive_emu.Base.{
  ℕ, ◌≤◌, ◌<◌, ◌≡◌, refl, ◌∙◌, ap, true, false, some, List, [], ◌∷◌, ◌++◌, leb, arith,
}
use revive_emu.Base.Text.{same_text, same_text_refl}
use revive_emu.Base.Lists.{length, take, take_all, All}
use revive_emu.Runtime.{MasterServerState}
use revive_emu.MasterServer.{add_master_server, remove_master_server}
use revive_emu.MasterServer.Occurrence.{contains, erase_first, erase_first_absent}
use revive_emu.MasterServer.Addresses.{
  addresses, IsAddressTable, add_master_server_lem, remove_master_server_lem,
}

contains-append : (a : List ℕ) (l : List (List ℕ)) → contains a (l ++ a ∷ []) ≡ true
contains-append a [] = ground (arith, same_text_refl a)
contains-append a (s ∷ l) = ground (arith, contains-append a l)

erase_first-append :
    (a : List ℕ) (l : List (List ℕ)) → contains a l ≡ false → erase_first a (l ++ a ∷ []) ≡ l
erase_first-append a [] h = ground (arith, same_text_refl a)
erase_first-append a (s ∷ l) h = ground (arith, erase_first-append a l)

same_text-length : (a b : List ℕ) → same_text a b ≡ true → length a ≡ length b
unfolding same_text
same_text-length [] [] e = refl
same_text-length [] (y ∷ b) e = cc
same_text-length (x ∷ a) [] e = cc
same_text-length (x ∷ a) (y ∷ b) e = ground (arith, same_text-length a b)

-- The list after an add of a new address that fits, with room.
add_new :
    (m : MasterServerState) (c : ℕ) (rest : List ℕ)
    → IsAddressTable m
    → contains (c ∷ rest) (addresses m) ≡ false
    → m.master_server_count < 16
    → length (c ∷ rest) < 128
    → addresses (add_master_server m (some (c ∷ rest))).0 ≡ addresses m ++ (c ∷ rest) ∷ []
add_new m c rest t new room short =
    let cut : take 127 (c ∷ rest) ≡ c ∷ rest = take_all 127 (c ∷ rest) (omega arith) in
    ground (arith, (add_master_server_lem m c rest t).0, cut)

-- On an array in bounds with room, removing a new address of 1 to 127 bytes right after it was
-- added gives the list from before, and the removal answers true.
pub remove_master_server-add_master_server :
    (m : MasterServerState) (c : ℕ) (rest : List ℕ)
    → IsAddressTable m
    → contains (c ∷ rest) (addresses m) ≡ false
    → m.master_server_count < 16
    → length (c ∷ rest) < 128
    → let a = c ∷ rest in
      let r = remove_master_server (add_master_server m (some a)).0 (some a) in
      (addresses r.0 ≡ addresses m) × (r.1 ≡ true)
remove_master_server-add_master_server m c rest t new room short =
    let a : List ℕ = c ∷ rest in
    let m1 : MasterServerState = (add_master_server m (some a)).0 in
    let grown = add_new m c rest t new room short in
    let r = remove_master_server_lem m1 c rest (add_master_server_lem m c rest t).2 in
    (
      r.0 ∙ ap (erase_first a) grown ∙ erase_first-append a (addresses m) new,
      r.1 ∙ ap (contains a) grown ∙ contains-append a (addresses m),
    )

-- A list of texts that fit holds no text that does not.
contains_long :
    (a : List ℕ) (l : List (List ℕ))
    → All (λ s. length s < 128) l
    → 128 ≤ length a
    → contains a l ≡ false
contains_long a [] h long = refl
contains_long a (s ∷ l) h long =
    ground (arith, contains_long a l h.1 long, same_text-length s a, h.0)

-- On an array in bounds with room, whose addresses are shorter than 128 bytes, an address of 128
-- bytes or more is never recognised: an add stores it once more, cut to 127 bytes, and its removal
-- is refused with the list as it was.
pub add_long_address :
    (m : MasterServerState) (c : ℕ) (rest : List ℕ)
    → IsAddressTable m
    → All (λ s. length s < 128) (addresses m)
    → m.master_server_count < 16
    → 128 ≤ length (c ∷ rest)
    → let a = c ∷ rest in
      (addresses (add_master_server m (some a)).0 ≡ addresses m ++ take 127 a ∷ [])
      × (addresses (remove_master_server m (some a)).0 ≡ addresses m)
      × ((remove_master_server m (some a)).1 ≡ false)
add_long_address m c rest t fit room long =
    let a : List ℕ = c ∷ rest in
    let new = contains_long a (addresses m) fit long in
    let below : leb 16 m.master_server_count ≡ false = ground arith in
    let r = remove_master_server_lem m c rest t in
    (
      (add_master_server_lem m c rest t).0 ∙ rw (new, below) refl,
      r.0 ∙ erase_first_absent a (addresses m) new,
      r.1 ∙ new,
    )
