-- ===== src/Stream/Reader/Tests.antt =====
-- StreamReader.hpp: the theorems at concrete inputs.
use iacore.Base.{◌≡◌, refl, true, List, [], ◌∷◌, map, ok, arith}
use iacore.Stream.Writer.{StreamWriter, vector_writer}
use iacore.Stream.Writer.Appends.{written}
use iacore.Stream.Writer.Writes.{Write, bytes_of, fill_of, content_of, contents, run_writes}
use iacore.Stream.Reader.{StorageType, StreamReader, reader_over, read, is_eof}
use iacore.Stream.Reader.Reads.{IsReader, lengths, read_sizes, read_sizes-run_writes}

-- Behind the first of three bytes.
abbrev second : StreamReader
second = record {
  m_data = 7 ∷ 8 ∷ 9 ∷ [];
  m_cursor = 1;
  m_data_size = 3;
  m_storage_type = StorageType.non_owning;
}

second-IsReader : IsReader second
second-IsReader = record { size_is = refl; cursor_le = omega arith; size_lt = omega arith }

read_two : read 2 second ≡ ok (8 ∷ 9 ∷ [], record second { m_cursor = 3 })
unfolding read
read_two = refl

abbrev calls : List Write
calls = bytes_of (1 ∷ 2 ∷ []) ∷ fill_of 9 3 ∷ []

read_sizes-run_writes_example :
    (w : StreamWriter) × (run_writes calls vector_writer ≡ ok w)
    × ((r : StreamReader) × (read_sizes
            (lengths (map content_of calls))
            (reader_over StorageType.non_owning (written w))
          ≡ ok (map content_of calls, r))
        × (is_eof r ≡ true))
unfolding contents
read_sizes-run_writes_example = read_sizes-run_writes calls (omega arith)
