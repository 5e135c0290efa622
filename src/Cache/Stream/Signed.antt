-- ===== src/Cache/Stream/Signed.antt =====
-- `CacheSeekFile` as arithmetic on integers, without words.
use revive_emu.Base.{
  ℕ, suc, ◌+◌, ◌-◌, ◌<◌, Bool, true, false, Option, none, some, ltb, leb, if◌then◌else◌, ◌≡◌, refl,
  arith,
}
use revive_emu.Cache.Stream.{
  Stream, Long, pos, negsuc, SeekMethod, set, cur, end, other, seek_file, seek_word, unsigned_of,
  is_negative, long_leb,
}

-- The values of a `long`.
abbrev pub IsLong : Long → Type 0
IsLong (pos n) = n < 0x80000000
IsLong (negsuc n) = n < 0x80000000

-- Where a seek goes from a position, in a file of a size, or `none` where there is no such place:
-- before the start, or from the position to where a `long` does not reach.
abbrev pub target : ℕ → ℕ → Long → SeekMethod → Option ℕ
target position size (pos n) set = some n
target position size (negsuc n) set = none
target position size (pos n) cur =
    if ltb (position + n) 0x80000000 then some (position + n) else none
target position size (negsuc n) cur = if ltb n position then some (position - suc n) else none
target position size (pos n) end = if leb n size then some (size - n) else none
target position size (negsuc n) end = some (size + suc n)
target position size offset other = none

abbrev pub landed : Stream → Option ℕ → Stream × Bool
landed f none = (f, false)
landed f (some n) = (record f { position = n }, true)

-- For an offset that a `long` of 32 bits can hold, and a position and a size below 2 ^ 31,
-- `CacheSeekFile`, which computes with signed and unsigned words, does what the integers say, with
-- each method. From the start it goes to the offset and refuses a negative one. From the position
-- it goes on by the offset, and refuses a place before the start or from 2 ^ 31 on. From the end
-- it goes back by the offset, behind the end if that is negative, and refuses a place before the
-- start. A refusal changes nothing, and so does any other method.
pub seek_file-target :
    (f : Stream) (offset : Long) (method : SeekMethod)
    → IsLong offset
    → f.position < 0x80000000
    → f.size < 0x80000000
    → seek_file f offset method ≡ landed f (target f.position f.size offset method)
unfolding seek_file seek_word unsigned_of is_negative long_leb
seek_file-target f (pos n) set h p s = ground arith
seek_file-target f (negsuc n) set h p s = ground arith
seek_file-target f (pos n) cur h p s = ground arith
seek_file-target f (negsuc n) cur h p s = ground arith
seek_file-target f (pos n) end h p s = ground arith
seek_file-target f (negsuc n) end h p s = ground arith
seek_file-target f (pos n) other h p s = refl
seek_file-target f (negsuc n) other h p s = refl
