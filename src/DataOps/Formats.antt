-- ===== src/DataOps/Formats.antt =====
-- DataOps.cpp: which data is taken for compressed, and hashing a text in two parts.
use Prim.Native.Nat.{bit_xor}
use iacore.Base.{ℕ, ◌*◌, ◌%◌, ◌≡◌, refl, ◌↔◌, [], ◌∷◌, ◌++◌, Bytes, arith}
use iacore.DataOps.{u32_mod, fnv_loop, hash_fnv1a, gzip, detect_compression}

-- The two bytes that a gzip member begins with (RFC 1952).
pub data IsGzip : Bytes → Type 0 where
  magic : (rest : Bytes) → IsGzip (0x1F ∷ 0x8B ∷ rest)

gzip-detected : {bytes : Bytes} → IsGzip bytes → detect_compression bytes ≡ gzip
unfolding detect_compression
gzip-detected (magic rest) = ground arith

-- Data is taken for gzip exactly when it begins with the two bytes of RFC 1952.
pub detect_compression-IsGzip : (bytes : Bytes) → (detect_compression bytes ≡ gzip) ↔ IsGzip bytes
unfolding detect_compression
detect_compression-IsGzip bytes = (detected bytes, gzip-detected)
  where
    detected : (bytes : Bytes) → detect_compression bytes ≡ gzip → IsGzip bytes
    detected [] e = cc
    detected (a ∷ []) e = cc
    detected (a ∷ b ∷ rest) e =
        let first : a ≡ 0x1F = ground arith in
        let second : b ≡ 0x8B = ground arith in rw (first, second) (magic rest)

fnv_loop-append :
    (text more : Bytes) (hash : ℕ)
    → fnv_loop (text ++ more) hash ≡ fnv_loop more (fnv_loop text hash)
unfolding fnv_loop
fnv_loop-append [] more hash = refl
fnv_loop-append (b ∷ text) more hash =
    fnv_loop-append text more (bit_xor hash b * 0x01000193 % u32_mod)

-- The hash of a text goes on from the hash of its first part.
pub hash_fnv1a-append :
    (text more : Bytes) → hash_fnv1a (text ++ more) ≡ fnv_loop more (hash_fnv1a text)
unfolding hash_fnv1a
hash_fnv1a-append text more = fnv_loop-append text more 0x811C9DC5
