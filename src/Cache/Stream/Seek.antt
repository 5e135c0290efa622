-- ===== src/Cache/Stream/Seek.antt =====
-- `CacheReadFile` after `CacheSeekFile`.
use revive_emu.Base.{
  ℕ, ◌+◌, ◌-◌, ◌<◌, ◌≤◌, arith, Bool, true, false, List, Option, some, if◌then◌else◌, ◌≡◌, ap, ◌∙◌,
}
use revive_emu.Base.Bytes.{u32_mod}
use revive_emu.Base.Read.{read_bytes}
use revive_emu.Cache.Outcome.{Outcome, done, ◌>>=◌}
use revive_emu.Cache.Stream.{
  Stream, min, total_of, read_binary, read_file, read_text, seek_file, seek_word, unsigned_of,
  is_negative, pos, set,
}
use revive_emu.Cache.Stream.Binary.{read_binary_lem}
use revive_emu.Cache.Stream.Slice.{IsWhole, content, place, slice, moved, left_of}

seek-IsWhole : (f : Stream) (n : ℕ) → IsWhole f → IsWhole (record f { position = n })
unfolding IsWhole
seek-IsWhole f n w = w

-- The result of a binary read as that of `CacheReadFile`.
abbrev pub of_stream : List ℕ × Stream → Outcome (List ℕ × Option Stream)
of_stream r = done (r.0, some r.1)

pub read_file_binary :
    (f : Stream) (size count : ℕ)
    → f.is_binary ≡ true
    → read_file (some f) size count ≡ (read_binary f size count >>= of_stream)
unfolding read_file
read_file_binary f size count e =
    ap (λ b. (if b then read_binary f size count else read_text f size count) >>= of_stream) e

-- A seek to a position that a `long` can hold is made.
pub seek_there :
    (f : Stream) (n : ℕ)
    → n < 0x80000000
    → seek_file f (pos n) set ≡ (record f { position = n }, true)
unfolding seek_file seek_word unsigned_of is_negative
seek_there f n h = ground arith

-- A seek to a position that is negative as a `long` is refused.
pub seek_refused :
    (f : Stream) (n : ℕ) → 0x80000000 ≤ n → n < u32_mod → seek_file f (pos n) set ≡ (f, false)
unfolding seek_file seek_word unsigned_of is_negative
seek_refused f n h k = ground arith

read_there :
    (f : Stream) (n size count : ℕ)
    → IsWhole f
    → n < u32_mod
    → let k = min (total_of size count) (f.size - n) in
      (read_binary (record f { position = n }) size count >>= of_stream)
      ≡ done (read_bytes (content f) n k, some (record f { position = n + k }))
unfolding slice moved left_of content place
read_there f n size count w h =
    ap (λ r. r >>= of_stream)
      (read_binary_lem (record f { position = n }) size count (seek-IsWhole f n w) h)

-- Of an open file in binary mode whose sectors cover it and lie in the cache's file, with less
-- than 2 ^ 32 bytes and a sector's room, a read after a seek to any position below 2 ^ 31 returns:
-- it gives the bytes from that position on, as many as asked for or as are left, and moves the
-- position behind them.
pub read_file-seek_file :
    (f : Stream) (n size count : ℕ)
    → IsWhole f
    → f.is_binary ≡ true
    → n < 0x80000000
    → let k = min (total_of size count) (f.size - n) in
      read_file (some (seek_file f (pos n) set).0) size count
      ≡ done (read_bytes (content f) n k, some (record f { position = n + k }))
read_file-seek_file f n size count w e h =
    ap (λ (r : Stream × Bool). read_file (some r.0) size count) (seek_there f n h)
    ∙ read_file_binary (record f { position = n }) size count e
    ∙ read_there f n size count w (omega arith)
