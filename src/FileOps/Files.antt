-- ===== src/FileOps/Files.antt =====
-- FileOps.cpp: whole files read and written, streams over files, and the flags of
-- `native_open_file`, on Linux. The C file functions are the parameter `CStdio`. The laws are in
-- Files/RoundTrip and Files/Modes.
pub mod RoundTrip
pub mod Modes
mod Tests
use iacore.Base.{
  ℕ, ◌+◌, ◌-◌, Bool, true, false, not, Option, none, some, [], ◌∷◌, ◌++◌, Bytes, length, take,
  replicate, ltb, bit_or, ◌&&◌, if◌then◌else◌, Result, ok, err,
}
use iacore.Stream.Writer
use iacore.Stream.Writer.{CFiles, StreamWriter, WriterError}
use iacore.Stream.Reader
use iacore.Stream.Reader.{StreamReader, ReaderError}

pub data FileError : Type 0 where
  open_failed already_exists write_failed not_found : FileError
  writer_failed : WriterError → FileError
  reader_failed : ReaderError → FileError

-- Why `fopen` for writing fails: `errno` is `EEXIST`, or something else.
pub data Errno : Type 0 where
  eexist other_errno : Errno

-- `fopen(path, "r")` (whether it succeeds), the `ftell` at the end of the file (`none` if it is
-- negative), the bytes that one `fread` gives, `fopen` for writing, one `fwrite` to the file that was
-- opened, and its `fclose` and whether it succeeds. Reading in the modes "r" and "rb" is the same on a Unix system.
pub record CStdio : Type 1 where
  pub Disk : Type 0
  pub opens : Bytes → Disk → Bool
  pub end_position : Bytes → Disk → Option ℕ
  pub fread : Bytes → ℕ → Disk → Bytes
  pub fopen_w : (exclusive : Bool) → Bytes → Disk → Result Errno Disk
  pub fwrite : Bytes → Bytes → Disk → ℕ × Disk
  pub fclose : Bytes → Disk → Bool × Disk

module _ (c : CStdio) where
  -- What `fread` leaves in a buffer of `len` bytes, which `resize` has filled with zeros, and the
  -- count that it returns.
  unfoldable pub read_into : Bytes → ℕ → c.Disk → Bytes × ℕ
  read_into path len disk =
      let got = c.fread path len disk in (got ++ replicate (len - length got) 0, length got)

  unfoldable pub text_of : Option ℕ → Bytes → c.Disk → Bytes
  unfolding read_into
  text_of none path disk = []
  text_of (some len) path disk =
      let r = read_into path len disk in if ltb 0 len then take r.1 r.0 else []

  unfoldable pub read_text_file : Bytes → c.Disk → Result FileError Bytes
  unfolding text_of
  read_text_file path disk =
      if not (c.opens path disk)
      then err open_failed
      else ok (text_of (c.end_position path disk) path disk)

  unfoldable pub binary_of : Option ℕ → Bytes → c.Disk → Bytes
  unfolding read_into
  binary_of none path disk = []
  binary_of (some len) path disk = if ltb 0 len then (read_into path len disk).0 else []

  unfoldable pub read_binary_file : Bytes → c.Disk → Result FileError Bytes
  unfolding binary_of
  read_binary_file path disk =
      if not (c.opens path disk)
      then err open_failed
      else ok (binary_of (c.end_position path disk) path disk)

  unfoldable pub write_opened :
      (overwrite : Bool) → Result Errno c.Disk → Bytes → Bytes → Result FileError (ℕ × c.Disk)
  write_opened overwrite (ok disk) path contents =
      let (result, buffered) = c.fwrite path contents disk in
      ok (result, (c.fclose path buffered).1)
  write_opened overwrite (err eexist) path contents =
      if not overwrite then err already_exists else err write_failed
  write_opened overwrite (err other_errno) path contents = err write_failed

  -- The count that `fwrite` returns, and the disk.
  unfoldable pub write_text_file :
      Bytes → Bytes → (overwrite : Bool) → c.Disk → Result FileError (ℕ × c.Disk)
  unfolding write_opened
  write_text_file path contents overwrite disk =
      write_opened overwrite (c.fopen_w (not overwrite) path disk) path contents

  unfoldable pub write_binary_file :
      Bytes → Bytes → (overwrite : Bool) → c.Disk → Result FileError (ℕ × c.Disk)
  unfolding write_opened
  write_binary_file path contents overwrite disk =
      write_opened overwrite (c.fopen_w (not overwrite) path disk) path contents

unfoldable pub of_writer {ℓ} : {A : Type ℓ} → Result WriterError A → Result FileError A
of_writer (ok a) = ok a
of_writer (err e) = err (writer_failed e)

unfoldable pub of_reader {ℓ} : {A : Type ℓ} → Result ReaderError A → Result FileError A
of_reader (ok a) = ok a
of_reader (err e) = err (reader_failed e)

-- `exists` is `std::filesystem::exists`.
pub stream_to_file :
    (files : CFiles) (exists : Bytes → files.Disk → Bool)
    → Bytes
    → (overwrite : Bool) → files.Disk
    → Result FileError (StreamWriter × files.Disk)
unfolding of_writer
stream_to_file files exists path overwrite disk =
    if not overwrite && exists path disk
    then err already_exists
    else of_writer (Writer.create_from_file files path disk)

-- `mapped` is what `map_file` maps.
pub stream_from_file : (exists : Bool) (mapped : Option Bytes) → Result FileError StreamReader
unfolding of_reader
stream_from_file exists mapped =
    if not exists then err not_found else of_reader (Reader.create_from_file mapped)

pub data FileAccess : Type 0 where
  read write read_write : FileAccess

pub data FileMode : Type 0 where
  open_existing open_always create_new create_always truncate_existing : FileMode

-- The values of Linux.
abbrev pub o_rdonly : ℕ
o_rdonly = 0

abbrev pub o_wronly : ℕ
o_wronly = 1

abbrev pub o_rdwr : ℕ
o_rdwr = 2

abbrev pub o_creat : ℕ
o_creat = 64

abbrev pub o_excl : ℕ
o_excl = 128

abbrev pub o_trunc : ℕ
o_trunc = 512

unfoldable pub access_flags : FileAccess → ℕ
access_flags read = o_rdonly
access_flags write = o_wronly
access_flags read_write = o_rdwr

unfoldable pub with_mode : FileMode → ℕ → ℕ
with_mode open_existing flags = flags
with_mode open_always flags = bit_or flags o_creat
with_mode create_new flags = bit_or flags (bit_or o_creat o_excl)
with_mode create_always flags = bit_or flags (bit_or o_creat o_trunc)
with_mode truncate_existing flags = bit_or flags o_trunc

-- `native_open_file`; `open` is the call of the system, `none` for -1.
unfoldable pub native_open_file :
    (open_call : Bytes → ℕ → ℕ → Option ℕ)
    → Bytes
    → FileAccess
    → FileMode
    → (permissions : ℕ) → Result FileError ℕ
unfolding with_mode access_flags
native_open_file open_call path access mode permissions =
    opened (open_call path (with_mode mode (access_flags access)) permissions)
  where
    opened : Option ℕ → Result FileError ℕ
    opened none = err open_failed
    opened (some fd) = ok fd

-- `native_close_file`: the descriptor that is closed, if any.
pub native_close_file : Option ℕ → Option ℕ
native_close_file none = none
native_close_file (some fd) = some fd
