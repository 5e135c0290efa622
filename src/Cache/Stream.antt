-- ===== src/Cache/Stream.antt =====
-- Steam/steam/CacheSystem/CCacheSystem.h: reading an open file of a cache (`CacheReadFile`,
-- `ReadBinary`, `BinaryReadSector`, `ReadText`, `TextReadSector`), `CacheSeekFile`, `CacheTellFile`
-- and `CacheSizeFile`. The cache's own file is its bytes and their count, on which the seek to any
-- offset succeeds and `fread` returns what is there. Offsets into it are taken to fit `off_t`, of 64 bits. A
-- buffer that is read into is the list of bytes put into it. The fuel of a loop is one more than the
-- amount to read, since a round that reads nothing is the last.
pub mod Slice
pub mod Binary
pub mod Text
pub mod Reading
pub mod Seek
pub mod Signed
pub mod Open
use revive_emu.Base.{
  ℕ, zero, suc, ◌+◌, ◌-◌, ◌*◌, ◌/◌, ◌%◌, Bool, true, false, not, ◌&&◌, Option, none, some, List, [],
  ◌∷◌, ◌++◌, ltb, leb, ◌==◌, if◌then◌else◌,
}
use revive_emu.Base.Bytes.{Memory, u32_mod}
use revive_emu.Base.Lists.{length, get_elem?, drop}
use revive_emu.Base.Read.{read_bytes}
use revive_emu.Cache.Layout.{Cache}
use revive_emu.Cache.Chain.{FileInfo}
use revive_emu.Cache.Outcome.{Outcome, done, fault, out_of_fuel, found, ◌>>=◌}

-- TFileInCacheHandle, with what its file and that file's cache say of it.
pub record Stream : Type 0 where
  pub bytes : Memory
  pub byte_count : ℕ
  pub first_sector_offset : ℕ
  pub physical_sector_size : ℕ
  pub sectors : List ℕ
  pub size : ℕ
  pub position : ℕ
  pub is_binary : Bool

-- What `CacheOpenFileEx` makes of the file found, of `size` bytes, under a mode without `w`, `a` and
-- `+`. `NewSteamFileHandle` starts it at position 0.
unfoldable pub open_file : Memory → ℕ → Cache → FileInfo → ℕ → Bool → Stream
open_file bytes byte_count c info size is_binary = record {
  bytes = bytes;
  byte_count = byte_count;
  first_sector_offset = c.sectors.first_sector_offset;
  physical_sector_size = c.sectors.physical_sector_size;
  sectors = info.sectors;
  size = size;
  position = 0;
  is_binary = is_binary;
}

abbrev pub min : ℕ → ℕ → ℕ
min a b = if leb a b then a else b

-- `fseek` to `at`, then `fread` of `n` bytes.
unfoldable pub read_at : Stream → ℕ → ℕ → List ℕ
read_at f at n = read_bytes f.bytes at (min n (f.byte_count - at))

unfoldable pub advance : Stream → ℕ → Stream
advance f n = record f { position = (f.position + n) % u32_mod }

-- The `uSize` that `BinaryReadSector` goes on with.
unfoldable pub clip : Stream → ℕ → ℕ
clip f size = if ltb f.size ((f.position + size) % u32_mod) then f.size - f.position else size

-- `BinaryReadSector`
unfoldable pub binary_read_sector : Stream → ℕ → ℕ → ℕ → Outcome (List ℕ)
binary_read_sector f index offset size =
    if leb f.size f.position
    then done []
    else (found (get_elem? f.sectors index) >>= λ sector. done (
        read_at f (f.first_sector_offset + sector * f.physical_sector_size + offset) (clip f size)))

-- `uActualDataToRead`, with `left` of the amount still to read.
unfoldable pub wanted : Stream → ℕ → ℕ
wanted f left = min left (f.physical_sector_size - f.position % f.physical_sector_size)

-- The loop of `ReadBinary`: the buffer and the handle after it.
unfoldable pub binary_loop : ℕ → Stream → ℕ → ℕ → List ℕ → Outcome (List ℕ × Stream)
binary_loop zero f total index out = out_of_fuel
binary_loop (suc fuel) f total index out =
    if ltb (length out) total
    then (let want = wanted f (total - length out) in
        binary_read_sector f index (f.position % f.physical_sector_size) want >>= λ got.
        if length got == want
        then binary_loop fuel (advance f (length got)) total (index + 1) (out ++ got)
        else done (out ++ got, advance f (length got)))
    else done (out, f)

-- `uTotalDataToRead`
unfoldable pub total_of : ℕ → ℕ → ℕ
total_of size count = size * count % u32_mod

-- `ReadBinary`
unfoldable pub read_binary : Stream → ℕ → ℕ → Outcome (List ℕ × Stream)
read_binary f size count =
    if f.physical_sector_size == 0
    then fault
    else binary_loop (suc (total_of size count)) f (total_of size count)
        (f.position / f.physical_sector_size) []

-- `TextReadSector`: the sector, if all of it is there.
unfoldable pub text_read_sector : Stream → ℕ → Outcome (Option (List ℕ))
text_read_sector f index = found (get_elem? f.sectors index) >>= λ sector.
    let got =
      read_at f (f.first_sector_offset + sector * f.physical_sector_size) f.physical_sector_size in
    done (if length got == f.physical_sector_size then some got else none)

-- `'\r'`
abbrev pub carriage_return : ℕ
carriage_return = 13

-- The inner loop of `ReadText` over the rest of the sector: how many bytes it takes, and the
-- characters it puts into the buffer, at most `room` of them from at most `available` bytes. It
-- stops behind the sector's end at the latest, where `available` ends.
unfoldable pub take_text : ℕ → ℕ → List ℕ → ℕ × List ℕ
take_text room available [] = (0, [])
take_text room zero (c ∷ cs) = (0, [])
take_text zero (suc available) (c ∷ cs) = (0, [])
take_text (suc room) (suc available) (c ∷ cs) =
    let rest = take_text (if c == carriage_return then suc room else room) available cs in
    (suc rest.0, if c == carriage_return then rest.1 else c ∷ rest.1)

-- `uDataAvailableToRead`
unfoldable pub available_from : Stream → ℕ
available_from f =
    min (f.size - f.position) (f.physical_sector_size - f.position % f.physical_sector_size)

-- A round of `ReadText` on a sector: the inner loop from the handle's place in it.
unfoldable pub text_round : Stream → ℕ → List ℕ → ℕ × List ℕ
text_round f left sector =
    take_text (wanted f left) (available_from f) (drop (f.position % f.physical_sector_size) sector)

-- The loop of `ReadText`; `taken` is `uReadedDataAmount`. Each round is at another sector than the
-- one before, so each reads its sector into the buffer.
unfoldable pub text_loop : ℕ → Stream → ℕ → ℕ → ℕ → List ℕ → Outcome (List ℕ × Stream)
text_loop zero f total index taken out = out_of_fuel
text_loop (suc fuel) f total index taken out =
    if ltb taken total && not (leb f.size f.position)
    then (text_read_sector f index >>= λ found_sector. elim found_sector [
      | none ↦ done (out, f)
      | some sector ↦
          let (more, characters) = text_round f (total - taken) sector in
          text_loop fuel (advance f more) total (index + 1) ((taken + more) % u32_mod)
            (out ++ characters)
    ])
    else done (out, f)

-- `ReadText`
unfoldable pub read_text : Stream → ℕ → ℕ → Outcome (List ℕ × Stream)
read_text f size count =
    if f.physical_sector_size == 0
    then fault
    else text_loop (suc (total_of size count)) f (total_of size count)
        (f.position / f.physical_sector_size) 0 []

-- `CacheReadFile`: the result is the length of the list. The mode has a `b` if `is_binary`.
unfoldable pub read_file : Option Stream → ℕ → ℕ → Outcome (List ℕ × Option Stream)
read_file none size count = done ([], none)
read_file (some f) size count =
    (if f.is_binary then read_binary f size count else read_text f size count) >>= λ (out, f').
    done (out, some f')

-- `long` in the build for i386: its values go from -2 ^ 31 to 2 ^ 31 - 1, and any other number
-- stands for the value that it wraps to.
pub data Long : Type 0 where
  pos : ℕ → Long
  negsuc : ℕ → Long

-- ESteamSeekMethod, and any other number.
pub data SeekMethod : Type 0 where
  set cur end other : SeekMethod

-- A `long` as an `unsigned int`: the word of 32 bits that it is kept in.
unfoldable pub unsigned_of : Long → ℕ
unsigned_of (pos n) = n % u32_mod
unsigned_of (negsuc n) = u32_mod - 1 - n % u32_mod

-- Whether a word is a negative number as a `long`.
unfoldable pub is_negative : ℕ → Bool
is_negative w = leb 0x80000000 w

-- `<=` of two words as `long`s.
unfoldable pub long_leb : ℕ → ℕ → Bool
long_leb a b = leb ((a + 0x80000000) % u32_mod) ((b + 0x80000000) % u32_mod)

-- The switch of `CacheSeekFile`, on the word of the offset.
unfoldable pub seek_word : Stream → ℕ → SeekMethod → Stream × Bool
seek_word f w set = if is_negative w then (f, false) else (record f { position = w }, true)
seek_word f w cur =
    let p = (f.position + w) % u32_mod in
    if is_negative p then (f, false) else (record f { position = p }, true)
seek_word f w end =
    if long_leb w f.size
    then (record f { position = (f.size + u32_mod - w) % u32_mod }, true)
    else (f, false)
seek_word f w other = (f, false)

-- `CacheSeekFile`: the handle after it, and whether it answers 0 and not -1. A position and a size
-- from 2 ^ 31 on are negative as a `long`; a sum that leaves the range of `long` wraps.
unfoldable pub seek_file : Stream → Long → SeekMethod → Stream × Bool
seek_file f offset method = seek_word f (unsigned_of offset) method

-- `CacheTellFile`, where `none` is -1.
unfoldable pub tell_file : Option Stream → Option ℕ
tell_file none = none
tell_file (some f) = some f.position

-- `CacheSizeFile`
unfoldable pub size_file : Option Stream → Option ℕ
size_file none = none
size_file (some f) = some f.size
