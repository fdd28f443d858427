-- ===== src/Stream/Writer/Tests.antt =====
-- StreamWriter.cpp: the theorems at concrete inputs. The disk is one file, the last that was opened.
use iacore.Base.{
  ◌≡◌, ◌∙◌, true, false, refl, sym, ap, drop, Option, some, List, [], ◌∷◌, ◌++◌, Bytes, codes,
  length, ok, arith,
}
use iacore.Stream.Writer.{
  CFiles, StreamWriter, StorageType, span_writer, is_empty_path, is_owning_file, vector_writer,
  write, write_fill, create_from_file, flush_to_disk, flush, destroy,
}
use iacore.Stream.Writer.Appends.{IsWriter, written}
use iacore.Stream.Writer.Writes.{Write, bytes_of, fill_of, contents, run_writes}
use iacore.Stream.Writer.Files.{flush-saves_contents, destroy-after_flush}

abbrev one_file : CFiles
one_file = record {
  Disk = Bytes × Bytes;
  fopen_wb = λ path disk. some (path, []);
  fwrite = λ path bytes disk. (length bytes, (path, bytes));
  fclose = λ path disk. (true, disk);
}

abbrev read_file : Bytes → Bytes × Bytes → Option Bytes
read_file path disk = some disk.1

fclose_law :
    (path bytes : Bytes) (disk opened buffered after : Bytes × Bytes)
    → one_file.fopen_wb path disk ≡ some opened
    → one_file.fwrite path bytes opened ≡ (length bytes, buffered)
    → one_file.fclose path buffered ≡ (true, after)
    → read_file path after ≡ some bytes
fclose_law path bytes disk opened buffered after o w c =
    ap (λ p. some p.1.1) (sym c) ∙ ap (λ p. some p.1.1) (sym w)

-- A disk that is full: `fwrite` fills its buffer only, and `fclose` fails.
abbrev full_disk : CFiles
full_disk = record one_file {
  fwrite = λ path bytes disk. (length bytes, disk);
  fclose = λ path disk. (false, disk);
}

abbrev calls : List Write
calls = bytes_of (1 ∷ 2 ∷ []) ∷ fill_of 9 3 ∷ []

abbrev fresh : StreamWriter
fresh = record vector_writer { m_file_path = codes "out"; m_storage_type = StorageType.owning_file }

abbrev filled : StreamWriter
filled = record fresh { m_buffer = 1 ∷ 2 ∷ 9 ∷ 9 ∷ 9 ∷ drop 5 fresh.m_buffer; m_cursor = 5 }

created : create_from_file one_file (codes "out") ([], []) ≡ ok (fresh, (codes "out", []))
unfolding create_from_file vector_writer
created = refl

ran : run_writes calls fresh ≡ ok filled
unfolding run_writes write write_fill vector_writer
ran = refl

flushed : flush one_file filled (codes "out", []) ≡ (
  ok tt,
  (
    record filled { m_storage_type = StorageType.owning_vector },
    (codes "out", 1 ∷ 2 ∷ 9 ∷ 9 ∷ 9 ∷ []),
  ),
)
unfolding flush flush_to_disk vector_writer
flushed = refl

-- The error of `fclose` is lost: `flush` succeeds, and the file is empty.
unsaved :
    flush full_disk filled (codes "out", [])
    ≡ (ok tt, (record filled { m_storage_type = StorageType.owning_vector }, (codes "out", [])))
unfolding flush flush_to_disk vector_writer
unsaved = refl

flush-saves_contents_example :
    read_file (codes "out") (codes "out", 1 ∷ 2 ∷ 9 ∷ 9 ∷ 9 ∷ []) ≡ some (contents calls)
unfolding is_empty_path contents
flush-saves_contents_example =
    flush-saves_contents one_file read_file fclose_law (codes "out") calls fresh filled
      (record filled { m_storage_type = StorageType.owning_vector }) ([], []) (codes "out", [])
      (codes "out", 1 ∷ 2 ∷ 9 ∷ 9 ∷ 9 ∷ []) refl (omega arith) created ran (λ d o. refl) flushed

-- Three bytes of a caller, one of them written.
abbrev small : StreamWriter
small = record (span_writer (0 ∷ 0 ∷ 0 ∷ [])) { m_cursor = 1 }

small-IsWriter : IsWriter small
unfolding span_writer
small-IsWriter = record { size_is = refl; cursor_le = omega arith; capacity_lt = omega arith }

filled-IsWriter : IsWriter filled
unfolding vector_writer
filled-IsWriter = record { size_is = refl; cursor_le = omega arith; capacity_lt = omega arith }

abbrev on_disk : Bytes × Bytes
on_disk = (codes "out", 1 ∷ 2 ∷ 9 ∷ 9 ∷ 9 ∷ [])

destroy-after_flush_example :
    (w : StreamWriter) × (write
        (7 ∷ [])
        (record filled { m_storage_type = StorageType.owning_vector })
      ≡ ok w)
    × (written w ≡ written filled ++ 7 ∷ [])
    × (destroy one_file w on_disk ≡ on_disk)
unfolding is_owning_file
destroy-after_flush_example =
    destroy-after_flush one_file filled
      (record filled { m_storage_type = StorageType.owning_vector }) (codes "out", []) on_disk
      (7 ∷ []) filled-IsWriter refl (omega arith) flushed
