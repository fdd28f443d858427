-- ===== src/FileOps/Files/Modes.antt =====
-- FileOps.cpp: what `open` does with the flags of `native_open_file`.
use iacore.Base.{
  ℕ, ◌≡◌, refl, Bool, ◌&&◌, not, Option, none, some, [], Bytes, ◌==◌, if◌then◌else◌, bit_and,
}
use iacore.FileOps.Files.{
  FileAccess, read, write, read_write, FileMode, open_existing, open_always, create_new,
  create_always, truncate_existing, o_creat, o_excl, o_trunc, access_flags, with_mode,
}

abbrev pub has_flag : ℕ → ℕ → Bool
has_flag flags flag = not (bit_and flags flag == 0)

-- What open(2) of Linux documents: the file's bytes afterwards, for the file as it was (`none` if there is
-- none); the outer `none` is a failure.
unfoldable pub open_call : (flags : ℕ) → Option Bytes → Option Bytes
open_call flags none = if has_flag flags o_creat then some [] else none
open_call flags (some bytes) =
    if has_flag flags o_creat && has_flag flags o_excl
    then none
    else if has_flag flags o_trunc
    then some []
    else some bytes

-- What the comments of `FileMode` promise.
unfoldable pub promised : FileMode → Option Bytes → Option Bytes
promised open_existing file = file
promised open_always none = some []
promised open_always (some bytes) = some bytes
promised create_new none = some []
promised create_new (some bytes) = none
promised create_always file = some []
promised truncate_existing none = none
promised truncate_existing (some bytes) = some []

-- With the flags that `native_open_file` passes, `open` does what the comments of `FileMode` promise, for every access
-- and every file: it fails exactly when promised, and keeps or clears the file as promised.
pub with_mode-promised :
    (mode : FileMode) (access : FileAccess) (file : Option Bytes)
    → open_call (with_mode mode (access_flags access)) file ≡ promised mode file
unfolding with_mode access_flags open_call promised
with_mode-promised open_existing read none = refl
with_mode-promised open_existing read (some bytes) = refl
with_mode-promised open_existing write none = refl
with_mode-promised open_existing write (some bytes) = refl
with_mode-promised open_existing read_write none = refl
with_mode-promised open_existing read_write (some bytes) = refl
with_mode-promised open_always read none = refl
with_mode-promised open_always read (some bytes) = refl
with_mode-promised open_always write none = refl
with_mode-promised open_always write (some bytes) = refl
with_mode-promised open_always read_write none = refl
with_mode-promised open_always read_write (some bytes) = refl
with_mode-promised create_new read none = refl
with_mode-promised create_new read (some bytes) = refl
with_mode-promised create_new write none = refl
with_mode-promised create_new write (some bytes) = refl
with_mode-promised create_new read_write none = refl
with_mode-promised create_new read_write (some bytes) = refl
with_mode-promised create_always read none = refl
with_mode-promised create_always read (some bytes) = refl
with_mode-promised create_always write none = refl
with_mode-promised create_always write (some bytes) = refl
with_mode-promised create_always read_write none = refl
with_mode-promised create_always read_write (some bytes) = refl
with_mode-promised truncate_existing read none = refl
with_mode-promised truncate_existing read (some bytes) = refl
with_mode-promised truncate_existing write none = refl
with_mode-promised truncate_existing write (some bytes) = refl
with_mode-promised truncate_existing read_write none = refl
with_mode-promised truncate_existing read_write (some bytes) = refl
