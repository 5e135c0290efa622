-- ===== src/FileSystem/Cached.antt =====
-- The functions on an open file of a cache, from the opening to the closing.
use revive_emu.Base.{ℕ, ◌+◌, ◌<◌, true, false, Option, some, List, ◌≡◌, ap, ◌∙◌}
use revive_emu.Base.Bytes.{u32_mod}
use revive_emu.Base.Map.{find}
use revive_emu.Base.Lists.{length}
use revive_emu.Cache.Outcome.{Outcome, done, ◌>>=◌}
use revive_emu.Cache.Stream.{Stream, total_of}
use revive_emu.Cache.Stream.Slice.{IsWhole, content, slice, left_of, moved, length-read_bytes}
use revive_emu.Cache.Stream.Binary.{read_binary_lem}
use revive_emu.Cache.Stream.Seek.{read_file_binary}
use revive_emu.FileSystem.{Os, FileHandle, FileSystem, Answer, set_file, stream_of, local_pointer}
use revive_emu.FileSystem.Access.{
  elements, short_error, moved_to, branch, with_file, answer, cache_read_file, steam_read_file,
}

length-slice_left : (s : Stream) (n : ℕ) → length (slice s (left_of s n)) ≡ left_of s n
unfolding slice
length-slice_left s n = length-read_bytes (content s) s.position (left_of s n)

module _ {os : Os} where
  -- With a handle of a file of a cache, a function goes on with its entry.
  pub with_file_cached :
      {A : Type 0} (h : ℕ) (f : FileHandle) (fs : FileSystem os)
      (on_disk : ℕ → Outcome (Answer os A)) (cached : FileHandle → Outcome (Answer os A))
      → find h fs.files ≡ some f
      → f.is_file_local ≡ false
      → with_file h fs on_disk cached ≡ cached f
  unfolding with_file local_pointer
  with_file_cached h f fs on_disk cached e l =
      rw e (ap (λ b. local_pointer b f.member >>= branch on_disk (cached f)) l)

  cache_read_file_lem :
      (h : ℕ) (f : FileHandle) (s : Stream) (size count : ℕ) (fs : FileSystem os)
      → stream_of f fs.manager ≡ done s
      → IsWhole s
      → s.is_binary ≡ true
      → s.position < u32_mod
      → let k = left_of s (total_of size count) in
        cache_read_file h f size count fs
        ≡ done (slice s k, set_file h (record f { position = s.position + k }) fs)
  unfolding cache_read_file moved
  cache_read_file_lem h f s size count fs e w b l = rw e (
      ap (λ r. r >>= λ (t : List ℕ × Option Stream). done (t.0, set_file h (moved_to f t.1) fs))
        (read_file_binary s size count b
          ∙ ap (λ r. r >>= λ (t : List ℕ × Stream). done (t.0, some t.1))
              (read_binary_lem s size count w l)))

  -- A read of a whole file of a cache in binary mode.
  pub steam_read_file_cached :
      (h : ℕ) (f : FileHandle) (s : Stream) (size count : ℕ) (fs : FileSystem os)
      → find h fs.files ≡ some f
      → f.is_file_local ≡ false
      → stream_of f fs.manager ≡ done s
      → IsWhole s
      → s.is_binary ≡ true
      → s.position < u32_mod
      → let k = left_of s (total_of size count) in
        steam_read_file size count h fs
        ≡ answer
            (slice s k, elements size k)
            (short_error (elements size k) count true)
            (set_file h (record f { position = s.position + k }) fs)
  unfolding steam_read_file
  steam_read_file_cached h f s size count fs e l found_stream w b p =
      let k = left_of s (total_of size count) in
      with_file_cached h f fs _ _ e l
      ∙ rw (cache_read_file_lem h f s size count fs found_stream w b p) (
          ap
            (λ n.
              answer (slice s k, elements size n) (short_error (elements size n) count true)
                (set_file h (record f { position = s.position + k }) fs))
            (length-slice_left s (total_of size count)))
