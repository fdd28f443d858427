-- ===== src/FileOps/Files/RoundTrip.antt =====
-- FileOps.cpp: what is written to a file is read back.
use iacore.Base.{
  ℕ, ◌-◌, ◌≡◌, ◌⊎◌, refl, ap, ◌∙◌, Bool, true, false, not, inl, inr, Option, some, [], ◌∷◌, ◌++◌,
  Bytes, length, take, replicate, ltb, if◌then◌else◌, Result, ok, err, append-nil, arith,
}
use iacore.FileOps.Files.{
  FileError, Errno, eexist, other_errno, CStdio, read_into, text_of, read_text_file, binary_of,
  read_binary_file, write_opened, write_text_file, write_binary_file,
}
use iacore.Stream.Sequences.{take-all}

-- What is documented of the C functions, where `held` is what the regular file with a path holds: after a complete
-- `fwrite` to a file that was just opened, and an `fclose` that succeeds, the file holds the bytes; the end of a file is
-- the number of its bytes; and what `fread` gives are its first bytes, but not necessarily as many as were asked for.
pub record IsStdio (c : CStdio) (held : Bytes → c.Disk → Option Bytes) : Type 0 where
  pub closed_written :
      (exclusive : Bool) (path bytes : Bytes) (disk opened buffered after : c.Disk)
      → c.fopen_w exclusive path disk ≡ ok opened
      → c.fwrite path bytes opened ≡ (length bytes, buffered)
      → c.fclose path buffered ≡ (true, after)
      → held path after ≡ some bytes
  pub end_held :
      (path bytes : Bytes) (disk : c.Disk)
      → held path disk ≡ some bytes
      → c.opens path disk ≡ true
      → c.end_position path disk ≡ some (length bytes)
  pub read_held :
      (path bytes : Bytes) (n : ℕ) (disk : c.Disk)
      → held path disk ≡ some bytes
      → c.opens path disk ≡ true
      → c.fread path n disk ≡ take (length (c.fread path n disk)) bytes

none_left : (n k : ℕ) → n ≡ k → replicate {A = ℕ} (n - k) 0 ≡ []
none_left n k is =
    let zero_left : n - k ≡ 0 = omega arith in ap (λ z. replicate {A = ℕ} z 0) zero_left

module _ (c : CStdio) (held : Bytes → c.Disk → Option Bytes) (laws : IsStdio c held) where
  -- A file whose end and whose bytes are those of `bytes`.
  module _ (path bytes : Bytes) (disk : c.Disk)
      (ends : c.end_position path disk ≡ some (length bytes))
      (reads : c.fread path (length bytes) disk ≡ bytes) where
    filled : read_into c path (length bytes) disk ≡ (bytes, length bytes)
    unfolding read_into
    filled = rw reads (
        ap (λ rest. (bytes ++ rest, length bytes)) (none_left (length bytes) (length bytes) refl)
        ∙ ap (λ b. (b, length bytes)) (append-nil bytes))

    binary_of_lem : binary_of c (some (length bytes)) path disk ≡ bytes
    unfolding binary_of
    binary_of_lem = ap (λ r. if ltb 0 (length bytes) then r.0 else []) filled ∙ all_or_none bytes
      where
        all_or_none : (b : Bytes) → (if ltb 0 (length b) then b else []) ≡ b
        all_or_none [] = refl
        all_or_none (x ∷ b) = ground arith

    text_of_lem : text_of c (some (length bytes)) path disk ≡ bytes
    unfolding text_of
    text_of_lem =
        ap (λ r. if ltb 0 (length bytes) then take r.1 r.0 else []) filled ∙ all_or_none bytes
      where
        all_or_none : (b : Bytes) → (if ltb 0 (length b) then take (length b) b else []) ≡ b
        all_or_none [] = refl
        all_or_none (x ∷ b) =
            let whole = take-all (length (x ∷ b)) (x ∷ b) (omega arith) in ground (arith, whole)

  reads_back :
      (path bytes : Bytes) (disk : c.Disk)
      → held path disk ≡ some bytes
      → c.opens path disk ≡ true
      → length (c.fread path (length bytes) disk) ≡ length bytes
      → (read_text_file c path disk ≡ ok bytes) × (read_binary_file c path disk ≡ ok bytes)
  unfolding read_text_file read_binary_file
  reads_back path bytes disk holds opens full =
      let ends = laws.end_held path bytes disk holds opens in
      let reads =
        laws.read_held path bytes (length bytes) disk holds opens
        ∙ ap (λ n. take n bytes) full
        ∙ take-all (length bytes) bytes (omega arith) in
      (
        rw (opens, ends, text_of_lem path bytes disk ends reads) refl,
        rw (opens, ends, binary_of_lem path bytes disk ends reads) refl,
      )

  -- The `fclose` after a `fwrite` of the bytes succeeds.
  abbrev Closes : Bool → Bytes → Bytes → c.Disk → Type 0
  Closes exclusive path bytes disk =
      (opened : c.Disk)
      → c.fopen_w exclusive path disk ≡ ok opened
      → (c.fclose path (c.fwrite path bytes opened).1).0 ≡ true

  write_opened-held :
      (overwrite : Bool) (path bytes : Bytes) (disk after : c.Disk) (tried : Result Errno c.Disk)
      → c.fopen_w (not overwrite) path disk ≡ tried
      → Closes (not overwrite) path bytes disk
      → write_opened c overwrite tried path bytes ≡ ok (length bytes, after)
      → held path after ≡ some bytes
  unfolding write_opened
  write_opened-held overwrite path bytes disk after (ok opened) is_open closes e =
      let r = c.fwrite path bytes opened in
      let same = written (r.0, (c.fclose path r.1).1) (length bytes, after) e in
      laws.closed_written (not overwrite) path bytes disk opened r.1 after is_open
        (λ i. ((same i).0, r.1)) (λ i. (closes opened is_open i, (same i).1))
    where
      written : (r s : ℕ × c.Disk) → ◌≡◌ {A = Result FileError (ℕ × c.Disk)} (ok r) (ok s) → r ≡ s
      written r s h = cc
  write_opened-held true path bytes disk after (err eexist) is_open closes e = cc
  write_opened-held false path bytes disk after (err eexist) is_open closes e = cc
  write_opened-held overwrite path bytes disk after (err other_errno) is_open closes e = cc

  -- When `write_text_file` or `write_binary_file` returns that all bytes were written, whether the file was there before
  -- or not, and the `fclose` in it succeeds, whose result the code ignores, both `read_text_file` and `read_binary_file`
  -- give these bytes back, if the file can then be opened and `fread` gives as many bytes as it is asked for.
  pub read_file-write_file :
      (path bytes : Bytes) (overwrite : Bool) (disk after : c.Disk)
      → (write_text_file c path bytes overwrite disk ≡ ok (length bytes, after))
        ⊎ (write_binary_file c path bytes overwrite disk ≡ ok (length bytes, after))
      → Closes (not overwrite) path bytes disk
      → c.opens path after ≡ true
      → length (c.fread path (length bytes) after) ≡ length bytes
      → (read_text_file c path after ≡ ok bytes) × (read_binary_file c path after ≡ ok bytes)
  unfolding write_text_file write_binary_file
  read_file-write_file path bytes overwrite disk after (inl e) closes opens full =
      reads_back path bytes after
        (write_opened-held overwrite path bytes disk after (c.fopen_w (not overwrite) path disk)
          refl closes e)
        opens full
  read_file-write_file path bytes overwrite disk after (inr e) closes opens full =
      reads_back path bytes after
        (write_opened-held overwrite path bytes disk after (c.fopen_w (not overwrite) path disk)
          refl closes e)
        opens full
