-- ===== src/Stream/Reader.antt =====
-- Src/IACore/inc/IACore/StreamReader.hpp and Src/IACore/imp/cpp/StreamReader.cpp.
-- `m_data` is the memory that the pointer designates. `usize` arithmetic is taken modulo 2 ^ 64. A
-- copy that would pass the end of the memory is the error `past_end`. Mapping a file is left to its
-- caller: `create_from_file` takes what `map_file` has mapped, and `destroy` tells whether it unmaps.
-- The laws are in Reader/Reads.
pub mod Reads
mod Tests
use iacore.Base.{
  ℕ, zero, ◌+◌, ◌-◌, ◌%◌, ◌^◌, min, Bool, true, false, Option, none, some, [], Bytes, length, take,
  drop, ltb, leb, if◌then◌else◌, Result, ok, err,
}
use iacore.Stream.Writer.{usize_mod}

pub data StorageType : Type 0 where
  non_owning owning_mmap owning_vector : StorageType

pub is_owning_mmap : StorageType → Bool
is_owning_mmap non_owning = false
is_owning_mmap owning_mmap = true
is_owning_mmap owning_vector = false

pub data ReaderError : Type 0 where
  unexpected_eof past_end map_failed : ReaderError

pub record StreamReader : Type 0 where
  pub m_data : Bytes
  pub m_cursor : ℕ
  pub m_data_size : ℕ
  pub m_storage_type : StorageType

pub reader_over : StorageType → Bytes → StreamReader
reader_over storage bytes = record {
  m_data = bytes;
  m_cursor = 0;
  m_data_size = length bytes;
  m_storage_type = storage;
}

pub create_from_file : Option Bytes → Result ReaderError StreamReader
unfolding reader_over
create_from_file none = err map_failed
create_from_file (some mapped) = ok (reader_over owning_mmap mapped)

-- `read(buffer, size)`, and `read<T>()` with the size of `T`.
pub read : ℕ → StreamReader → Result ReaderError (Bytes × StreamReader)
read size r =
    let end = (r.m_cursor + size) % usize_mod in
    if ltb r.m_data_size end
    then err unexpected_eof
    else if leb (r.m_cursor + size) (length r.m_data)
    then ok (take size (drop r.m_cursor r.m_data), record r { m_cursor = end })
    else err past_end

pub skip : ℕ → StreamReader → StreamReader
skip amount r = record r { m_cursor = min ((r.m_cursor + amount) % usize_mod) r.m_data_size }

pub seek : ℕ → StreamReader → StreamReader
seek pos r = record r { m_cursor = if ltb r.m_data_size pos then r.m_data_size else pos }

pub remaining : StreamReader → ℕ
remaining r = (r.m_data_size + usize_mod - r.m_cursor) % usize_mod

pub is_eof : StreamReader → Bool
is_eof r = leb r.m_data_size r.m_cursor

-- What a moved-from reader is left as; its cursor is kept.
pub moved_from : StreamReader → StreamReader
moved_from r = record r { m_data = []; m_data_size = 0; m_storage_type = non_owning }

-- Whether the destructor unmaps the data.
pub destroy : StreamReader → Bool
unfolding is_owning_mmap
destroy r = is_owning_mmap r.m_storage_type

-- `r = std::move(other)` for another object: whether the data of `r` is unmapped, and what `r` and
-- `other` are then.
pub move_assign : StreamReader → StreamReader → Bool × (StreamReader × StreamReader)
unfolding is_owning_mmap moved_from
move_assign r other = (is_owning_mmap r.m_storage_type, (other, moved_from other))
