-- ===== src/Cache/Chain/Build.antt =====
-- `BuildFileInfo` on the chains of a file, and the open file that it makes readable.
use revive_emu.Base.{
  ℕ, ◌*◌, ◌%◌, ◌≤◌, ◌<◌, Bool, true, false, some, List, [], ◌∷◌, ◌==◌, leb, ◌≡◌, refl, sym, ap,
  arith, Bool-cases, inl, inr,
}
use revive_emu.Base.Lists.{length, get_elem?}
use revive_emu.Cache.Outcome.{done}
use revive_emu.Cache.Layout.{Cache, BlockEntry, ManifestEntry}
use revive_emu.Cache.Chain.{end_mark, sectors_needed, is_listed, file_sectors, build_file_info}
use revive_emu.Cache.Chain.Walk.{IsBlockChain, follow_blocks_chain}
use native.Mathlib.Nat.{div-add-mod', mod-lt}

-- A file's entries in the tables, and its chain of `n` blocks with the sectors `ss`.
pub record FileChain (c : Cache) (item n : ℕ) (ss : List ℕ) : Type 0 where
  pub block : ℕ
  pub entry : ManifestEntry
  pub first : BlockEntry
  pub block_found : get_elem? c.manifest.map_entries item ≡ some block
  pub entry_found : get_elem? c.manifest.entries item ≡ some entry
  pub first_found : get_elem? c.blocks block ≡ some first
  pub chain :
      IsBlockChain
        (end_mark c.sectors.sector_count)
        c.sectors.sector_count
        c.blocks
        c.allocation
        n
        block
        ss

file_sectors_chain :
    (fuel : ℕ) (c : Cache) (n block room : ℕ) (ss : List ℕ)
    → IsBlockChain
        (end_mark c.sectors.sector_count)
        c.sectors.sector_count
        c.blocks
        c.allocation
        n
        block
        ss
    → length ss ≤ room
    → n < fuel
    → length ss < fuel
    → (b : Bool) × (file_sectors fuel c block room ≡ done (ss, b))
unfolding file_sectors
file_sectors_chain fuel c n block room ss chain h k r = elim (Bool-cases (room == 0)) [
  | inl e ↦ rw e (false, ap (λ t. done (t, false)) (sym (empty ss (ground arith))))
  | inr e ↦
      let (b, same) =
        follow_blocks_chain fuel fuel (end_mark c.sectors.sector_count) c.sectors.sector_count
          c.blocks c.allocation n block [] ss false chain k r in
      let fits : leb (length ss) room ≡ true = ground arith in (b, rw e (rw same (rw fits refl)))
]
  where
    empty : (ss : List ℕ) → length ss ≡ 0 → ss ≡ []
    empty [] e = refl
    empty (s ∷ ss) e = absurd (omega arith)

-- With at most as many sectors along the chain as the file's size needs, and fuel for one round
-- more than it has blocks and than it has sectors, `BuildFileInfo` returns the sectors of the chain in order, with the first
-- block's type as the flags and the file's marks from the two tables.
pub build_file_info_chain :
    (fuel : ℕ) (c : Cache) (item n : ℕ) (ss : List ℕ) (chain : FileChain c item n ss)
    → 0 < c.sectors.physical_sector_size
    → length ss ≤ sectors_needed chain.entry.item_size c.sectors.physical_sector_size
    → n < fuel
    → length ss < fuel
    → (b : Bool) × (build_file_info fuel c item
        ≡ done (record {
          flags = chain.first.entry_type;
          sectors = ss;
          sector_total = sectors_needed chain.entry.item_size c.sectors.physical_sector_size;
          is_fragmented = b;
          is_local_copy_made = is_listed item c.manifest.copy_entries;
          is_local_copy_has_priority = is_listed item c.manifest.local_entries;
        }))
unfolding build_file_info
build_file_info_chain fuel c item n ss chain p h k r =
    let room = sectors_needed chain.entry.item_size c.sectors.physical_sector_size in
    let (b, same) = file_sectors_chain fuel c n chain.block room ss chain.chain h k r in
    let positive : c.sectors.physical_sector_size == 0 ≡ false = ground arith in
    (
      b,
      rw chain.block_found
          (rw chain.entry_found (rw chain.first_found (rw positive (rw same refl)))),
    )

-- The sectors that a size needs cover it.
pub sectors_needed-cover : (size n : ℕ) → 0 < n → size ≤ sectors_needed size n * n
unfolding sectors_needed
sectors_needed-cover size n h =
    let whole = div-add-mod' size n in
    let rest = mod-lt size h in
    elim (Bool-cases (size % n == 0)) [
      | inl e ↦ rw e (omega (arith, exact size n e))
      | inr e ↦ rw e grind arith
    ]
  where
    exact : (size n : ℕ) → size % n == 0 ≡ true → size % n ≡ 0
    exact size n e = ground arith
