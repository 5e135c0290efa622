-- ===== src/FileSystem/Access.antt =====
-- The functions on open files (Steam/steam/SteamFilesystem.h), and those of `CCacheFileSystem` that
-- they call (Steam/steam/CacheSystem/CCacheSystem.h). A seek on a file whose cache is gone counts as
-- a fault, also where it would not look at the cache.
use revive_emu.Base.{
  ℕ, ◌/◌, Bool, true, false, not, ◌&&◌, Option, none, some, List, [], ◌∷◌, ◌==◌, ltb, if◌then◌else◌,
}
use revive_emu.Base.Map.{find}
use revive_emu.Base.Lists.{length}
use revive_emu.Cache.Outcome.{Outcome, done, found, ◌>>=◌}
use revive_emu.Cache.Stream.{Stream, Long, pos, negsuc, SeekMethod, set, end, read_file, seek_file}
use revive_emu.FileSystem.{
  Os, FileHandle, FileSystem, Answer, no_error, unknown_error, error_library_not_initialized,
  error_eof, error_access_denied, invalid_handle, minus_one, set_file, close_file_handle,
  local_pointer, stream_of, int_of,
}
use revive_emu.FileSystem.Files.{new_local_file}

-- The position that a use of the stream leaves, written back.
abbrev pub moved_to : FileHandle → Option Stream → FileHandle
moved_to f none = f
moved_to f (some s) = record f { position = s.position }

-- `retval /= uSize` if `uSize > 1`.
unfoldable pub elements : ℕ → ℕ → ℕ
elements size n = if ltb 1 size then n / size else n

-- The error of `SteamReadFile`, for a file of the disk that has come to its end or not.
unfoldable pub short_error : ℕ → ℕ → Bool → ℕ
short_error n count at_end = if not (n == count) && at_end then error_eof else no_error

-- `int` 0 or -1
abbrev pub status_of : Bool → Long
status_of true = pos 0
status_of false = minus_one

-- ESteamBufferMethod, and any other number; `_IOFBF` and `_IONBF`.
pub data BufferMethod : Type 0 where
  full_buffering no_buffering other_method : BufferMethod

abbrev pub mode_of : BufferMethod → Option ℕ
mode_of full_buffering = some 0
mode_of no_buffering = some 2
mode_of other_method = none

module _ {os : Os} where
  abbrev pub answer : {A : Type 0} → A → ℕ → FileSystem os → Outcome (Answer os A)
  answer value error after = done (record { value = value; error = error; after = after })

  -- The answer of a function of the C library.
  abbrev pub local_answer : {A : Type 0} → A × os.World → FileSystem os → Outcome (Answer os A)
  local_answer (value, w) fs = answer value no_error (record fs { world = w })

  -- The two branches of a function on an open file.
  abbrev pub branch :
      {A : Type 0}
      → (ℕ → Outcome (Answer os A))
      → Outcome (Answer os A)
      → Option ℕ
      → Outcome (Answer os A)
  branch on_disk cached (some file) = on_disk file
  branch on_disk cached none = cached

  -- `GetSteamFileHandle` and the test of `IsFileLocal`, followed by what is done with the `FILE` or
  -- with the entry of a file of a cache.
  unfoldable pub with_file :
      {A : Type 0}
      → ℕ
      → FileSystem os
      → (ℕ → Outcome (Answer os A))
      → (FileHandle → Outcome (Answer os A))
      → Outcome (Answer os A)
  with_file h fs on_disk cached = found (find h fs.files) >>= λ (f : FileHandle).
      local_pointer f.is_file_local f.member >>= branch on_disk (cached f)

  -- `CacheReadFile`: the bytes, and the new position.
  unfoldable pub cache_read_file :
      ℕ → FileHandle → ℕ → ℕ → FileSystem os → Outcome (List ℕ × FileSystem os)
  cache_read_file h f size count fs = stream_of f fs.manager >>= λ s.
      read_file (some s) size count >>= λ (bytes, s'). done (bytes, set_file h (moved_to f s') fs)

  -- `SteamReadFile`: the bytes put into the buffer, and the count.
  unfoldable pub steam_read_file : ℕ → ℕ → ℕ → FileSystem os → Outcome (Answer os (List ℕ × ℕ))
  steam_read_file size count h fs =
      with_file h fs
        (λ file.
          let ((bytes, n), w) = os.fread file size count fs.world in
          answer (bytes, n) (short_error n count (os.feof file w)) (record fs { world = w }))
        (λ f. cache_read_file h f size count fs >>= λ (bytes, fs').
          let n = elements size (length bytes) in answer (bytes, n) (short_error n count true) fs')

  -- `SteamCloseFile` behind its guard, with `CacheCloseFile`.
  unfoldable pub close_started : ℕ → FileSystem os → Outcome (Answer os Long)
  close_started h fs =
      with_file h fs
        (λ file.
          let (status, w) = os.fclose file fs.world in
          answer status no_error (close_file_handle h (record fs { world = w })))
        (λ f. answer (pos 0) no_error (close_file_handle h fs))

  -- `SteamCloseFile`
  unfoldable pub steam_close_file : ℕ → FileSystem os → Outcome (Answer os Long)
  steam_close_file h fs =
      if fs.is_started
      then close_started h fs
      else answer minus_one error_library_not_initialized fs

  -- `SteamFlushFile`
  unfoldable pub steam_flush_file : ℕ → FileSystem os → Outcome (Answer os Long)
  steam_flush_file h fs =
      with_file h fs (λ file. local_answer (os.fflush file fs.world) fs)
        (λ f. answer minus_one error_access_denied fs)

  -- `SteamGetc`
  unfoldable pub steam_getc : ℕ → FileSystem os → Outcome (Answer os Long)
  steam_getc h fs =
      with_file h fs (λ file. local_answer (os.fgetc file fs.world) fs)
        (λ f. cache_read_file h f 1 1 fs >>= λ (bytes, fs'). answer (character bytes) no_error fs')
    where
      character : List ℕ → Long
      character (c ∷ []) = pos c
      character _ = minus_one

  -- `SteamOpenTmpFile`
  unfoldable pub steam_open_tmp_file : FileSystem os → Outcome (Answer os ℕ)
  steam_open_tmp_file fs =
      let (file, w) = os.tmpfile fs.world in
      elim file [
        | none ↦ answer invalid_handle no_error (record fs { world = w })
        | some f ↦
            let (h, fs') = new_local_file f (record fs { world = w }) in answer h no_error fs'
      ]

  -- `SteamPutc`
  unfoldable pub steam_putc : Long → ℕ → FileSystem os → Outcome (Answer os Long)
  steam_putc c h fs =
      with_file h fs (λ file. local_answer (os.fputc file c fs.world) fs)
        (λ f. answer minus_one error_access_denied fs)

  -- `SteamSeekFile`, with `CacheSeekFile`.
  unfoldable pub steam_seek_file : ℕ → Long → SeekMethod → FileSystem os → Outcome (Answer os Long)
  steam_seek_file h offset method fs =
      with_file h fs (λ file. local_answer (os.fseek file offset method fs.world) fs)
        (λ f. stream_of f fs.manager >>= λ s.
          let (s', ok) = seek_file s offset method in
          answer (status_of ok) no_error (set_file h (moved_to f (some s')) fs))

  -- `SteamWriteFile`
  unfoldable pub steam_write_file : List ℕ → ℕ → ℕ → ℕ → FileSystem os → Outcome (Answer os ℕ)
  steam_write_file bytes size count h fs =
      with_file h fs (λ file. local_answer (os.fwrite file bytes size count fs.world) fs)
        (λ f. answer 0 error_access_denied fs)

  -- `SteamTellFile`, with `CacheTellFile`.
  unfoldable pub steam_tell_file : ℕ → FileSystem os → Outcome (Answer os Long)
  steam_tell_file h fs =
      with_file h fs (λ file. answer (os.ftell file fs.world) no_error fs)
        (λ f. answer (int_of f.position) no_error fs)

  -- `SteamSizeFile`, with `CacheSizeFile`.
  unfoldable pub steam_size_file : ℕ → FileSystem os → Outcome (Answer os Long)
  steam_size_file h fs =
      with_file h fs
        (λ file. elim (os.ftell file fs.world) [
          | negsuc n ↦ answer minus_one no_error fs
          | pos at ↦
              let w1 = (os.fseek file (pos 0) end fs.world).1 in
              let w2 = (os.fseek file (pos at) set w1).1 in
              answer (os.ftell file w1) no_error (record fs { world = w2 })
        ])
        (λ f. stream_of f fs.manager >>= λ s. answer (int_of s.size) no_error fs)

  -- `SteamPrintFile`, with the text that the format and its arguments give.
  unfoldable pub steam_print_file : List ℕ → ℕ → FileSystem os → Outcome (Answer os Long)
  steam_print_file text h fs =
      with_file h fs (λ file. local_answer (os.vfprintf file text fs.world) fs)
        (λ f. answer (pos 0) error_access_denied fs)

  -- `SteamSetvBuf`
  unfoldable pub steam_setv_buf : BufferMethod → ℕ → ℕ → FileSystem os → Outcome (Answer os Long)
  steam_setv_buf method bytes h fs =
      with_file h fs
        (λ file. elim (mode_of method) [
          | none ↦ answer minus_one no_error fs
          | some mode ↦ local_answer (os.setvbuf file mode bytes fs.world) fs
        ])
        (λ f. answer minus_one unknown_error fs)
