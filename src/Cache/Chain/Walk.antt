-- ===== src/Cache/Chain/Walk.antt =====
-- The chains that `BuildFileInfo` follows, as relations, and its loops along them.
use revive_emu.Base.{
  ℕ, zero, suc, ◌+◌, ◌<◌, Bool, true, false, not, ◌||◌, some, List, [], ◌∷◌, ◌++◌, ◌==◌, ◌≡◌, refl,
  sym, ap, ◌∙◌, arith,
}
use revive_emu.Base.Lists.{length, get_elem?, length-append}
use revive_emu.Cache.Outcome.{done}
use revive_emu.Cache.Layout.{BlockEntry}
use revive_emu.Cache.Chain.{is_jump, write_sector, sector_round, follow_sectors, follow_blocks}
use mathlib.Core.List.{append-nil, append_assoc}

-- From a sector along the allocation table to the mark.
pub data IsSectorChain (mark : ℕ) (allocation : List ℕ) : ℕ → List ℕ → Type 0 where
  ended : {sector : ℕ} → sector ≡ mark → IsSectorChain mark allocation sector []
  linked :
      {sector next : ℕ} {rest : List ℕ}
      → sector == mark ≡ false
      → get_elem? allocation sector ≡ some next
      → IsSectorChain mark allocation next rest
      → IsSectorChain mark allocation sector (sector ∷ rest)

-- From a block along `NextBlockEntryIndex` to the count of sectors, over so many blocks: the sectors
-- of their chains.
pub data IsBlockChain (mark sector_count : ℕ) (blocks : List BlockEntry) (allocation : List ℕ)
    : ℕ → ℕ → List ℕ → Type 0 where
  last :
      {block : ℕ}
      → block ≡ sector_count
      → IsBlockChain mark sector_count blocks allocation 0 block []
  then_block :
      {n block : ℕ} {ss : List ℕ} (entry : BlockEntry) (here rest : List ℕ)
      → ss ≡ here ++ rest
      → block == sector_count ≡ false
      → get_elem? blocks block ≡ some entry
      → IsSectorChain mark allocation entry.first_data_block_index here
      → IsBlockChain mark sector_count blocks allocation n entry.next_block_entry_index rest
      → IsBlockChain mark sector_count blocks allocation (suc n) block ss

self_test : (n : ℕ) → n == n ≡ true
self_test n = ground arith

-- The inner loop along a chain.
follow_sectors_chain :
    (fuel mark : ℕ) (allocation : List ℕ) (sector : ℕ) (out ss : List ℕ) (fragmented : Bool)
    → IsSectorChain mark allocation sector ss
    → length ss < fuel
    → (b : Bool) × (follow_sectors fuel mark allocation sector out fragmented ≡ done (out ++ ss, b))
unfolding follow_sectors sector_round write_sector
follow_sectors_chain zero mark allocation sector out ss fragmented c k = absurd (omega arith)
follow_sectors_chain (suc fuel) mark allocation sector out ss fragmented (ended e) k =
    let test : sector == mark ≡ true = ground arith in
    (fragmented, rw test (rw (append-nil out) refl))
follow_sectors_chain (suc fuel) mark allocation sector out ss fragmented
      (linked {next = next} {rest = rest} e g c) k =
    let (b, same) =
      follow_sectors_chain fuel mark allocation next (out ++ sector ∷ []) rest
        (fragmented || is_jump mark sector next) c (omega arith) in
    (b, rw e (rw g (same ∙ ap (λ t. done (t, b)) (append_assoc out (sector ∷ []) rest))))

-- The outer loop along chains.
pub follow_blocks_chain :
    (fuel rounds mark sector_count : ℕ) (blocks : List BlockEntry) (allocation : List ℕ)
    (n block : ℕ) (out ss : List ℕ) (fragmented : Bool)
    → IsBlockChain mark sector_count blocks allocation n block ss
    → n < fuel
    → length ss < rounds
    → (b : Bool) × (follow_blocks fuel rounds mark sector_count blocks allocation block out
          fragmented
        ≡ done (out ++ ss, b))
unfolding follow_blocks
follow_blocks_chain zero rounds mark sector_count blocks allocation n block out ss fragmented c k
      r =
    absurd (omega arith)
follow_blocks_chain (suc fuel) rounds mark sector_count blocks allocation n block out ss fragmented
      (last e) k r =
    let test : block == sector_count ≡ true = ground arith in
    (fragmented, rw test (rw (append-nil out) refl))
follow_blocks_chain (suc fuel) rounds mark sector_count blocks allocation n block out ss fragmented
      (then_block {n = m} entry here rest parts e g sectors c) k r =
    let jump = fragmented || not (entry.next_block_entry_index == sector_count) in
    let size : length ss ≡ length here + length rest = ap length parts ∙ length-append here rest in
    let (b, same) =
      follow_sectors_chain rounds mark allocation entry.first_data_block_index out here jump sectors
        (omega arith) in
    let (b', same') =
      follow_blocks_chain fuel rounds mark sector_count blocks allocation m
        entry.next_block_entry_index (out ++ here) rest b c (omega arith) (omega arith) in
    (
      b',
      rw e (
          rw g (
            rw same (
              same'
              ∙ ap (λ t. done (t, b'))
                  (append_assoc out here rest ∙ ap (λ t. out ++ t) (sym parts))))),
    )
