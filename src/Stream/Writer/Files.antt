-- ===== src/Stream/Writer/Files.antt =====
-- StreamWriter.cpp: what reaches the disk.
use iacore.Base.{
  ℕ, ◌+◌, ◌<◌, ◌≡◌, refl, sym, ap, ◌∙◌, true, false, inl, inr, Option, none, some, List, [], ◌++◌,
  Bytes, length, take, ◌==◌, if◌then◌else◌, Bool-cases, Option-cases, ==→eq, Result, ok, err,
  has_value, arith,
}
use iacore.Stream.Writer.{
  usize_mod, StorageType, is_non_owning, is_owning_file, WriterError, open_failed, incomplete_write,
  StreamWriter, CFiles, vector_writer, write, is_empty_path, opened_writer, create_from_file,
  flush_to_disk, flush, destroy,
}
use iacore.Stream.Writer.Appends.{written, IsWriter, write-Appended, length-written, written-take}
use iacore.Stream.Writer.Writes.{Write, contents, run_writes, run_writes-Appended}

ok-ne-err : {A : Type 0} {a : A} {why : WriterError} → ¬ (ok a ≡ err why)
ok-ne-err e = cc

module _ (files : CFiles) where
  flush-parts :
      (w w' : StreamWriter) (disk after : files.Disk)
      → flush files w disk ≡ (ok tt, (w', after))
      → (flush_to_disk files w disk ≡ (ok tt, after))
        × (w' ≡ record w { m_storage_type = StorageType.owning_vector })
  unfolding flush
  flush-parts w w' disk after e =
      let res = ap (λ p. p.0) e in
      (
        ap (λ p. (p.0, p.1.1)) e,
        sym (ap (λ p. p.1.0) e)
            ∙ ap
                (λ r.
                  if has_value r
                  then record w { m_storage_type = StorageType.owning_vector }
                  else w)
                res,
      )

  -- The outcomes of `flush_to_disk` for a writer of a file.
  module _ (w : StreamWriter) (disk : files.Disk) (file : is_owning_file w.m_storage_type ≡ true)
      (path : is_empty_path w.m_file_path ≡ false) where
    flush_to_disk-closed :
        files.fopen_wb w.m_file_path disk ≡ none
        → flush_to_disk files w disk ≡ (err (open_failed w.m_file_path), disk)
    unfolding flush_to_disk
    flush_to_disk-closed closed = rw (file, path, closed)

    module _ (opened : files.Disk) (is_open : files.fopen_wb w.m_file_path disk ≡ some opened) where
      stored : ℕ × files.Disk
      stored = files.fwrite w.m_file_path (take w.m_cursor w.m_buffer) opened

      -- Whatever `fclose` returns.
      on_disk : files.Disk
      unfolding stored
      on_disk = (files.fclose w.m_file_path stored.1).1

      flush_to_disk_complete :
          (stored.0 == w.m_cursor) ≡ true → flush_to_disk files w disk ≡ (ok tt, on_disk)
      unfolding flush_to_disk stored on_disk
      flush_to_disk_complete all = rw (file, path, is_open, all)

      flush_to_disk-short :
          (stored.0 == w.m_cursor) ≡ false
          → flush_to_disk files w disk ≡ (err (incomplete_write stored.0 w.m_cursor), on_disk)
      unfolding flush_to_disk stored on_disk
      flush_to_disk-short part = rw (file, path, is_open, part)

  destroy-vector :
      (w : StreamWriter) (disk : files.Disk)
      → w.m_storage_type ≡ StorageType.owning_vector
      → destroy files w disk ≡ disk
  unfolding destroy is_owning_file
  destroy-vector w disk e = rw e

  -- The writer that `create_from_file` makes.
  made_for : Bytes → StreamWriter
  made_for path = record vector_writer {
    m_file_path = path;
    m_storage_type = StorageType.owning_file;
  }

  made_for-IsWriter : (path : Bytes) → IsWriter (made_for path)
  unfolding made_for vector_writer
  made_for-IsWriter path = record {
    size_is = refl;
    cursor_le = omega arith;
    capacity_lt = omega arith;
  }

  made_for-owns : (path : Bytes) → is_non_owning (made_for path).m_storage_type ≡ false
  unfolding made_for is_non_owning
  made_for-owns path = refl

  made_for-cursor : (path : Bytes) → (made_for path).m_cursor ≡ 0
  unfolding made_for vector_writer
  made_for-cursor path = refl

  made_for-written : (path : Bytes) → written (made_for path) ≡ []
  unfolding made_for vector_writer
  made_for-written path = written-take (made_for path)

  create_from_file-closed :
      (path : Bytes) (disk : files.Disk)
      → files.fopen_wb path disk ≡ none
      → create_from_file files path disk ≡ err (open_failed path)
  unfolding create_from_file opened_writer
  create_from_file-closed path disk closed = ap (opened_writer files path) closed

  create_from_file-opened :
      (path : Bytes) (disk opened : files.Disk)
      → files.fopen_wb path disk ≡ some opened
      → create_from_file files path disk ≡ ok (made_for path, (files.fclose path opened).1)
  unfolding create_from_file opened_writer made_for
  create_from_file-opened path disk opened is_open = ap (opened_writer files path) is_open

  create_from_file-ok :
      (path : Bytes) (w : StreamWriter) (disk opened : files.Disk)
      → create_from_file files path disk ≡ ok (w, opened)
      → w ≡ made_for path
  create_from_file-ok path w disk opened e = elim (Option-cases (files.fopen_wb path disk)) [
    | inl closed ↦ cc (create_from_file-closed path disk closed, e)
    | inr (opened', is_open) ↦ cc (create_from_file-opened path disk opened' is_open, e)
  ]

  -- The file functions as the C standard has them: after a complete `fwrite` to a file that was just opened, and an
  -- `fclose` that succeeds, the file holds the bytes.
  module _ (read_file : Bytes → files.Disk → Option Bytes)
      (fclose_law : (path bytes : Bytes) (disk opened buffered after : files.Disk)
        → files.fopen_wb path disk ≡ some opened
        → files.fwrite path bytes opened ≡ (length bytes, buffered)
        → files.fclose path buffered ≡ (true, after)
        → read_file path after ≡ some bytes) where
    -- The `fclose` after a `fwrite` of the bytes succeeds.
    abbrev Closes : Bytes → Bytes → files.Disk → Type 0
    Closes path bytes disk =
        (opened : files.Disk)
        → files.fopen_wb path disk ≡ some opened
        → (files.fclose path (files.fwrite path bytes opened).1).0 ≡ true

    flush_to_disk-saves :
        (w : StreamWriter) (disk after : files.Disk)
        → IsWriter w
        → is_owning_file w.m_storage_type ≡ true
        → is_empty_path w.m_file_path ≡ false
        → Closes w.m_file_path (written w) disk
        → flush_to_disk files w disk ≡ (ok tt, after)
        → read_file w.m_file_path after ≡ some (written w)
    unfolding stored on_disk
    flush_to_disk-saves w disk after h file path closes e =
        elim (Option-cases (files.fopen_wb w.m_file_path disk)) [
          | inl closed ↦
              absurd
                (ok-ne-err (ap (λ p. p.0) (sym e ∙ flush_to_disk-closed w disk file path closed)))
          | inr (opened, is_open) ↦
              let done = stored w disk file path opened is_open in
              elim (Bool-cases (done.0 == w.m_cursor)) [
                | inl all ↦
                    let same =
                      ap (λ p. p.1)
                        (sym (flush_to_disk_complete w disk file path opened is_open all) ∙ e) in
                    let count : done.0 ≡ length (written w) =
                      ==→eq done.0 w.m_cursor all ∙ sym (length-written w h) in
                    let wrote = ap (λ t. files.fwrite w.m_file_path t opened) (written-take w) in
                    fclose_law w.m_file_path (written w) disk opened done.1 after is_open
                      (wrote ∙ λ i. (count i, done.1))
                      (λ i. (success (ap (λ r. r.1) wrote) (closes opened is_open) i, same i))
                | inr part ↦ absurd (
                    ok-ne-err (
                      ap (λ p. p.0)
                        (sym e ∙ flush_to_disk-short w disk file path opened is_open part)))
              ]
        ]
      where
        success :
            {d d' : files.Disk}
            → d ≡ d'
            → (files.fclose w.m_file_path d).0 ≡ true
            → (files.fclose w.m_file_path d').0 ≡ true
        success p q = ap (λ d. (files.fclose w.m_file_path d).0) (sym p) ∙ q

    -- When a writer that was made for a path which is not empty has accepted a sequence of writes, of fewer bytes than
    -- 2 ^ 64 together, and its `flush` then succeeds, and so does the `fclose` in it, whose result the code ignores, the
    -- file holds the contents of all of them, in order. Of the C file functions it is assumed that a complete `fwrite`
    -- to a file that was just opened, and an `fclose` that succeeds, leave the bytes in the file.
    pub flush-saves_contents :
        (path : Bytes) (calls : List Write) (w w' flushed : StreamWriter)
        (disk opened after : files.Disk)
        → is_empty_path path ≡ false
        → length (contents calls) < usize_mod
        → create_from_file files path disk ≡ ok (w, opened)
        → run_writes calls w ≡ ok w'
        → Closes path (contents calls) opened
        → flush files w' opened ≡ (ok tt, (flushed, after))
        → read_file path after ≡ some (contents calls)
    unfolding made_for is_owning_file
    flush-saves_contents path calls w w' flushed disk opened after named lt made ran closes done =
        let new = made_for path in
        let (w1, ran1, put) =
          run_writes-Appended calls new (made_for-IsWriter path) (made_for-owns path)
            (omega (arith, made_for-cursor path)) in
        let same : w1 ≡ w' = ok-injective (
          sym ran1
          ∙ ap (run_writes calls) (sym (create_from_file-ok path w disk opened made))
          ∙ ran) in
        let path_is : w1.m_file_path ≡ path = put.same_path in
        let to_disk =
          ap (λ v. flush_to_disk files v opened) same
          ∙ (flush-parts w' flushed opened after done).0 in
        let content_is : written w1 ≡ contents calls =
          put.content ∙ ap (λ t. t ++ contents calls) (made_for-written path) in
        let closes_w1 = λ (d : files.Disk) (o : files.fopen_wb w1.m_file_path opened ≡ some d).
          ap (λ p. (files.fclose p (files.fwrite p (written w1) d).1).0) path_is
          ∙ ap (λ t. (files.fclose path (files.fwrite path t d).1).0) content_is
          ∙ closes d (ap (λ p. files.fopen_wb p opened) (sym path_is) ∙ o) in
        ap (λ p. read_file p after) (sym path_is)
        ∙ flush_to_disk-saves w1 opened after put.still (ap is_owning_file put.same_storage)
            (ap is_empty_path path_is ∙ named) closes_w1 to_disk
        ∙ ap some content_is
      where
        ok-injective :
            {a b : StreamWriter} → ◌≡◌ {A = Result WriterError StreamWriter} (ok a) (ok b) → a ≡ b
        ok-injective e = cc

  -- A text that is written after a successful `flush` of a well-formed writer of a file (its buffer has the size of its
  -- capacity, which the cursor does not pass) is accepted behind what the writer holds, and the destructor leaves the disk
  -- as `flush` left it: the text does not reach the file. The cursor and the text's length together do not pass what a
  -- `usize` can count.
  pub destroy-after_flush :
      (w w' : StreamWriter) (disk after : files.Disk) (bytes : Bytes)
      → IsWriter w
      → is_owning_file w.m_storage_type ≡ true
      → w.m_cursor + length bytes < usize_mod
      → flush files w disk ≡ (ok tt, (w', after))
      → (w'' : StreamWriter) × (write bytes w' ≡ ok w'')
        × (written w'' ≡ written w ++ bytes)
        × (destroy files w'' after ≡ after)
  unfolding is_non_owning
  destroy-after_flush w w' disk after bytes h file lt done =
      let stays = (flush-parts w w' disk after done).1 in
      let vector = record w { m_storage_type = StorageType.owning_vector } in
      let holds : IsWriter vector = record {
        size_is = h.size_is;
        cursor_le = h.cursor_le;
        capacity_lt = h.capacity_lt;
      } in
      let (w'', wrote, put) = write-Appended bytes vector holds not_span lt in
      (
        w'',
        ap (write bytes) stays ∙ wrote,
        put.content ∙ ap (λ t. t ++ bytes) (written-take vector ∙ sym (written-take w)),
        destroy-vector w'' after put.same_storage,
      )
    where
      not_span : is_non_owning StorageType.owning_vector ≡ false
      not_span = refl
