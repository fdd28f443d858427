-- ===== src/Stream/Writer.antt =====
-- Src/IACore/inc/IACore/StreamWriter.hpp and Src/IACore/imp/cpp/StreamWriter.cpp.
-- `m_buffer` is the memory that the pointer designates: the caller's span, or the writer's vector,
-- whose size is `m_capacity`. `usize` arithmetic is taken modulo 2 ^ 64. A copy that would pass the
-- end of the memory is the error `past_end`. The C file functions are the parameter `CFiles`.
-- The laws are in Writer/Appends, Writer/Writes and Writer/Files.
pub mod Appends
pub mod Writes
pub mod Files
mod Tests
use iacore.Base.{
  ℕ, zero, ◌+◌, ◌-◌, ◌*◌, ◌%◌, ◌^◌, Bool, true, false, ◌||◌, not, Option, none, some, List, [], ◌∷◌,
  ◌++◌, Bytes, length, take, drop, replicate, ltb, leb, ◌==◌, if◌then◌else◌, Result, ok, err, ◌>>=◌,
  has_value,
}

abbrev pub usize_mod : ℕ
usize_mod = 2 ^ 64

pub data StorageType : Type 0 where
  non_owning owning_file owning_vector : StorageType

pub is_non_owning : StorageType → Bool
is_non_owning non_owning = true
is_non_owning owning_file = false
is_non_owning owning_vector = false

pub is_owning_file : StorageType → Bool
is_owning_file non_owning = false
is_owning_file owning_file = true
is_owning_file owning_vector = false

pub data WriterError : Type 0 where
  open_failed : (path : Bytes) → WriterError
  incomplete_write : (written expected : ℕ) → WriterError
  buffer_overflow past_end : WriterError

pub record StreamWriter : Type 0 where
  pub m_buffer : Bytes
  pub m_cursor : ℕ
  pub m_capacity : ℕ
  pub m_file_path : Bytes
  pub m_storage_type : StorageType

-- `fopen(path, "wb")`, one `fwrite` to the file that was opened and the count that it returns, and its
-- `fclose` and whether it succeeds. `fwrite` may leave bytes in a buffer that `fclose` writes.
pub record CFiles : Type 1 where
  pub Disk : Type 0
  pub fopen_wb : Bytes → Disk → Option Disk
  pub fwrite : Bytes → Bytes → Disk → ℕ × Disk
  pub fclose : Bytes → Disk → Bool × Disk

-- The constructors.
pub vector_writer : StreamWriter
vector_writer = record {
  m_buffer = replicate 256 0;
  m_cursor = 0;
  m_capacity = 256;
  m_file_path = [];
  m_storage_type = StorageType.owning_vector;
}

pub span_writer : Bytes → StreamWriter
span_writer span = record {
  m_buffer = span;
  m_cursor = 0;
  m_capacity = length span;
  m_file_path = [];
  m_storage_type = StorageType.non_owning;
}

-- `resize` of the vector.
pub resize : ℕ → Bytes → Bytes
resize n bytes = take n bytes ++ replicate (n - length bytes) 0

-- The first part of both `write`s: make room, or fail.
pub make_room : ℕ → StreamWriter → Result WriterError StreamWriter
unfolding is_non_owning resize
make_room size w =
    let required = (w.m_cursor + size) % usize_mod in
    let double_cap = w.m_capacity * 2 % usize_mod in
    let new_capacity = if ltb required double_cap then double_cap else required in
    if ltb w.m_capacity required
    then (if is_non_owning w.m_storage_type
        then err buffer_overflow
        else ok (record w { m_buffer = resize new_capacity w.m_buffer; m_capacity = new_capacity }))
    else ok w

-- `memcpy` or `memset` at the cursor.
pub copy_at_cursor : Bytes → StreamWriter → Result WriterError StreamWriter
copy_at_cursor bytes w =
    let end = w.m_cursor + length bytes in
    if leb end (length w.m_buffer)
    then ok (record w {
      m_buffer = take w.m_cursor w.m_buffer ++ (bytes ++ drop end w.m_buffer);
      m_cursor = end % usize_mod;
    })
    else err past_end

-- `write(buffer, size)`
pub write : Bytes → StreamWriter → Result WriterError StreamWriter
unfolding make_room copy_at_cursor
write bytes w = make_room (length bytes) w >>= copy_at_cursor bytes

-- `write(byte, count)`
pub write_fill : ℕ → ℕ → StreamWriter → Result WriterError StreamWriter
unfolding make_room copy_at_cursor
write_fill byte count w = make_room count w >>= copy_at_cursor (replicate count byte)

-- What a moved-from writer is left as: by the constructor, which keeps the cursor, and by the
-- assignment.
pub moved_from : StreamWriter → StreamWriter
moved_from w = record w { m_buffer = []; m_capacity = 0; m_storage_type = StorageType.non_owning }

pub assigned_from : StreamWriter → StreamWriter
assigned_from w = record w {
  m_buffer = [];
  m_cursor = 0;
  m_capacity = 0;
  m_file_path = [];
  m_storage_type = StorageType.non_owning;
}

pub is_empty_path : Bytes → Bool
is_empty_path [] = true
is_empty_path (c ∷ path) = false

module _ (files : CFiles) where
  pub opened_writer : Bytes → Option files.Disk → Result WriterError (StreamWriter × files.Disk)
  unfolding vector_writer
  opened_writer path none = err (open_failed path)
  opened_writer path (some opened) = ok (
    record vector_writer { m_file_path = path; m_storage_type = StorageType.owning_file },
    (files.fclose path opened).1,
  )

  pub create_from_file : Bytes → files.Disk → Result WriterError (StreamWriter × files.Disk)
  unfolding opened_writer
  create_from_file path disk = opened_writer path (files.fopen_wb path disk)

  -- The result, and the disk also when it fails.
  pub flush_to_disk : StreamWriter → files.Disk → Result WriterError (Unit {0}) × files.Disk
  unfolding is_owning_file is_empty_path
  flush_to_disk w disk =
      if not (is_owning_file w.m_storage_type) || is_empty_path w.m_file_path
      then (ok tt, disk)
      else elim (files.fopen_wb w.m_file_path disk) [
        | none ↦ (err (open_failed w.m_file_path), disk)
        | some opened ↦
            let (written, buffered) =
              files.fwrite w.m_file_path (take w.m_cursor w.m_buffer) opened in
            let after = (files.fclose w.m_file_path buffered).1 in
            if written == w.m_cursor
            then (ok tt, after)
            else (err (incomplete_write written w.m_cursor), after)
      ]

  pub flush :
      StreamWriter → files.Disk → Result WriterError (Unit {0}) × (StreamWriter × files.Disk)
  flush w disk =
      let (res, after) = flush_to_disk w disk in
      (
        res,
        (
          if has_value res then record w { m_storage_type = StorageType.owning_vector } else w,
          after,
        ),
      )

  pub destroy : StreamWriter → files.Disk → files.Disk
  unfolding is_owning_file
  destroy w disk = if is_owning_file w.m_storage_type then (flush_to_disk w disk).1 else disk

  -- `w = std::move(other)` for another object: what `w` and `other` are then.
  pub move_assign :
      StreamWriter → StreamWriter → files.Disk → (StreamWriter × StreamWriter) × files.Disk
  unfolding is_owning_file assigned_from
  move_assign w other disk =
      let after = if is_owning_file w.m_storage_type then (flush_to_disk w disk).1 else disk in
      ((other, assigned_from other), after)
