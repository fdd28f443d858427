-- ===== src/FileOps/Files/Tests.antt =====
-- FileOps.cpp: the theorems on a disk with one file.
use iacore.Base.{
  ℕ, zero, suc, ◌≡◌, sym, ap, ◌∙◌, refl, Bool, true, false, Option, none, some, inl, [], ◌∷◌, Bytes,
  length, take, ok, err, if◌then◌else◌,
}
use iacore.FileOps.Files.{
  eexist, CStdio, write_opened, write_text_file, read_text_file, read_binary_file,
}
use iacore.FileOps.Files.RoundTrip.{IsStdio, read_file-write_file}

abbrev bytes_of : Option Bytes → Bytes
bytes_of none = []
bytes_of (some b) = b

abbrev is_there : Option Bytes → Bool
is_there none = false
is_there (some b) = true

abbrev one_file : CStdio
one_file = record {
  Disk = Option Bytes;
  opens = λ path disk. is_there disk;
  end_position = λ path disk. some (length (bytes_of disk));
  fread = λ path n disk. take n (bytes_of disk);
  fopen_w = λ exclusive path disk.
      if exclusive then (if is_there disk then err eexist else ok (some [])) else ok (some []);
  fwrite = λ path bytes disk. (length bytes, some bytes);
  fclose = λ path disk. (true, disk);
}

take_prefix : (n : ℕ) (b : Bytes) → take n b ≡ take (length (take n b)) b
take_prefix zero b = refl
take_prefix (suc n) [] = refl
take_prefix (suc n) (x ∷ b) = ap (λ t. x ∷ t) (take_prefix n b)

one_file-IsStdio : IsStdio one_file (λ path disk. disk)
one_file-IsStdio = record {
  closed_written = λ exclusive path bytes disk opened buffered after o w c.
      sym (ap (λ r. r.1) c) ∙ sym (ap (λ r. r.1) w);
  end_held = λ path bytes disk h o. ap (λ d. some (length (bytes_of d))) h;
  read_held = λ path bytes n disk h o.
      take_prefix n (bytes_of disk)
      ∙ ap (λ b. take (length (take n (bytes_of disk))) b) (ap bytes_of h);
}

read_file-write_file_example :
    (read_text_file one_file [] (some (7 ∷ 8 ∷ [])) ≡ ok (7 ∷ 8 ∷ []))
    × (read_binary_file one_file [] (some (7 ∷ 8 ∷ [])) ≡ ok (7 ∷ 8 ∷ []))
unfolding write_text_file write_opened
read_file-write_file_example =
    read_file-write_file one_file (λ path disk. disk) one_file-IsStdio [] (7 ∷ 8 ∷ []) false none
      (some (7 ∷ 8 ∷ [])) (inl refl) (λ d o. refl) refl refl
