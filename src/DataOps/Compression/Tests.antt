-- ===== src/DataOps/Compression/Tests.antt =====
-- DataOps.cpp: the theorem on a small format, in which a count stands before each byte that is
-- repeated; data that end behind a count are cut off.
use iacore.Base.{
  ℕ, ◌≡◌, refl, Bool, true, false, some, [], ◌∷◌, ◌++◌, Bytes, length, take, drop, replicate, leb,
  if◌then◌else◌, ok, err, inl, arith,
}
use iacore.DataOps.Compression.{
  Zlib, z_ok, z_stream_end, z_other, Inflated, inflate_failed, zlib_inflate,
}
use iacore.DataOps.Compression.Inflate.{IsInflater, zlib_inflate-whole}

abbrev unpacked : Bytes → Bytes
unpacked [] = []
unpacked (n ∷ []) = []
unpacked (n ∷ c ∷ bytes) = replicate n c ++ unpacked bytes

abbrev is_whole : Bytes → Bool
is_whole [] = true
is_whole (n ∷ []) = false
is_whole (n ∷ c ∷ bytes) = is_whole bytes

-- A stream is what is left of its output, and whether its data are whole.
abbrev one_round : Bytes × Bool → ℕ → Inflated (Bytes × Bool)
one_round (out, whole) room =
    if leb (length out) room
    then record { code = if whole then z_stream_end else z_other; out = out; stream = ([], whole) }
    else record { code = z_ok; out = take room out; stream = (drop room out, whole) }

abbrev repeats : Zlib
repeats = record {
  Stream = Bytes × Bool;
  inflate_init =
      λ bytes avail_in. some (unpacked (take avail_in bytes), is_whole (take avail_in bytes));
  inflate = one_round;
  deflate_init = λ gzip. true;
  deflate_bound = λ gzip n. n;
  deflate = λ gzip bytes room. (z_stream_end, bytes);
}

repeats-IsInflater : IsInflater repeats (λ zs. zs.1 ≡ true) (λ zs. zs.0)
repeats-IsInflater = record {
  ends = λ zs room whole all. (ground (arith, whole), ground arith);
  fills =
      λ zs room whole more pos. (ground arith, ground arith, ground arith, ground (arith, whole));
  just_fills = λ zs room whole just pos. inl (ground (arith, whole), ground arith);
}

zlib_inflate-whole_example :
    zlib_inflate repeats 13 (5 ∷ 9 ∷ 7 ∷ 2 ∷ []) ≡ some (ok (replicate 5 9 ++ replicate 7 2))
zlib_inflate-whole_example =
    zlib_inflate-whole repeats (λ zs. zs.1 ≡ true) (λ zs. zs.0) repeats-IsInflater
      (5 ∷ 9 ∷ 7 ∷ 2 ∷ []) (replicate 5 9 ++ replicate 7 2, true) 13 (omega arith) refl refl
      (omega arith) (omega arith) (omega arith)

cut_off : zlib_inflate repeats 13 (5 ∷ 9 ∷ 7 ∷ []) ≡ some (err inflate_failed)
unfolding zlib_inflate
cut_off = refl
