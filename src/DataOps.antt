-- ===== src/DataOps.antt =====
-- Src/IACore/imp/cpp/DataOps.cpp: the checksum, the hashes and the test for a format; the compression
-- is in DataOps/Compression. `u32` arithmetic is taken modulo 2 ^ 32. A loop that moves a pointer by
-- 8 or 16 bytes while that many are left makes as many rounds as the length holds such blocks. The
-- laws are in DataOps/Crc and DataOps/Formats; known values of the checksum and of the hashes are in
-- the tests.
pub mod Crc
pub mod Compression
pub mod Formats
mod Tests
use Prim.Native.Nat.{bit_xor}
use iacore.Base.{
  ℕ, zero, suc, ◌+◌, ◌-◌, ◌*◌, ◌/◌, ◌%◌, ◌^◌, bit_and, bit_or, Bool, true, false, ◌&&◌, ◌||◌, [],
  ◌∷◌, Bytes, length, get_or, drop, ltb, leb, ◌==◌, if◌then◌else◌,
}

-- `read_unaligned<u32>`, little-endian.
pub read_u32 : Bytes → ℕ
read_u32 p = get_or p 0 0 + get_or p 1 0 * 2 ^ 8 + get_or p 2 0 * 2 ^ 16 + get_or p 3 0 * 2 ^ 24

-- `Crc32Tables`
pub crc_bits : ℕ → ℕ → ℕ
crc_bits zero crc = crc
crc_bits (suc n) crc = crc_bits n (bit_xor (crc / 2) (if bit_and crc 1 == 0 then 0 else 0x82F63B78))

pub table : ℕ → ℕ → ℕ
unfolding crc_bits
table zero i = crc_bits 8 i
table (suc slice) i =
    let prev = table slice i in bit_xor (prev / 2 ^ 8) (crc_bits 8 (bit_and prev 0xFF))

-- The first loop of `crc32_software_slice8`.
pub slice_round : Bytes → ℕ → ℕ
unfolding table read_u32
slice_round p crc =
    let term1 = bit_xor crc (read_u32 p) in
    let term2 = read_u32 (drop 4 p) in
    bit_xor
      (bit_xor
        (bit_xor
          (bit_xor
            (bit_xor
              (bit_xor
                (bit_xor (table 7 (bit_and term1 0xFF)) (table 6 (bit_and (term1 / 2 ^ 8) 0xFF)))
                (table 5 (bit_and (term1 / 2 ^ 16) 0xFF)))
              (table 4 (term1 / 2 ^ 24)))
            (table 3 (bit_and term2 0xFF)))
          (table 2 (bit_and (term2 / 2 ^ 8) 0xFF)))
        (table 1 (bit_and (term2 / 2 ^ 16) 0xFF)))
      (table 0 (term2 / 2 ^ 24))

-- The two loops of a checksum: `while (len >= 8) { …; p += 8; len -= 8; }`, as many rounds as there
-- are blocks, and `while (len--)`, byte by byte.
unfoldable pub block_rounds : (Bytes → ℕ → ℕ) → ℕ → Bytes → ℕ → ℕ
block_rounds round zero p crc = crc
block_rounds round (suc n) p crc = block_rounds round n (drop 8 p) (round p crc)

unfoldable pub single_rounds : (ℕ → ℕ → ℕ) → Bytes → ℕ → ℕ
single_rounds round [] crc = crc
single_rounds round (b ∷ p) crc = single_rounds round p (round crc b)

pub checksum : (Bytes → ℕ → ℕ) → (ℕ → ℕ → ℕ) → Bytes → ℕ
unfolding block_rounds single_rounds
checksum block single bytes =
    let blocks = length bytes / 8 in
    bit_xor
      (single_rounds single (drop (blocks * 8) bytes) (block_rounds block blocks bytes 0xFFFFFFFF))
      0xFFFFFFFF

pub table_step : ℕ → ℕ → ℕ
unfolding table
table_step crc b = bit_xor (crc / 2 ^ 8) (table 0 (bit_and (bit_xor crc b) 0xFF))

pub crc32_software_slice8 : Bytes → ℕ
unfolding checksum slice_round table_step
crc32_software_slice8 = checksum slice_round table_step

-- `read_unaligned<u64>`, little-endian.
pub read_u64 : Bytes → ℕ
unfolding read_u32
read_u64 p = read_u32 p + read_u32 (drop 4 p) * 2 ^ 32

-- The checksum instructions of a processor, which are not code of the program: a word of eight
-- bytes, and a single byte.
pub record CrcUnit : Type 0 where
  pub crc32_u64 : ℕ → ℕ → ℕ
  pub crc32_u8 : ℕ → ℕ → ℕ

pub crc32_x64_hw : CrcUnit → Bytes → ℕ
unfolding checksum read_u64
crc32_x64_hw unit =
    checksum (λ p crc. unit.crc32_u64 crc (read_u64 p) % 2 ^ 32) (λ crc b. unit.crc32_u8 crc b)

pub crc32_arm64_hw : CrcUnit → Bytes → ℕ
unfolding checksum read_u64
crc32_arm64_hw unit =
    checksum (λ p crc. unit.crc32_u64 crc (read_u64 p)) (λ crc b. unit.crc32_u8 crc b)

-- What the program is compiled for; on ARM the instructions may be missing.
pub data Architecture : Type 0 where
  x64 other_arch : Architecture
  arm64 : (hardware_crc32 : Bool) → Architecture

pub crc32 : Architecture → CrcUnit → Bytes → ℕ
unfolding crc32_x64_hw crc32_arm64_hw crc32_software_slice8
crc32 x64 unit bytes = crc32_x64_hw unit bytes
crc32 other_arch unit bytes = crc32_software_slice8 bytes
crc32 (arm64 hardware_crc32) unit bytes =
    if hardware_crc32 then crc32_arm64_hw unit bytes else crc32_software_slice8 bytes

abbrev pub u32_mod : ℕ
u32_mod = 2 ^ 32

-- `std::rotl` of a `u32`, for 0 < k < 32.
pub rotl : ℕ → ℕ → ℕ
rotl x k = bit_or (x * 2 ^ k % u32_mod) (x / 2 ^ (32 - k))

pub xxh32_round : ℕ → ℕ → ℕ
unfolding rotl
xxh32_round seed input = rotl ((seed + input * 0x85EBCA77) % u32_mod) 13 * 0x9E3779B1 % u32_mod

-- The four lanes of the loop over blocks of 16 bytes.
pub record Lanes : Type 0 where
  pub v1 : ℕ
  pub v2 : ℕ
  pub v3 : ℕ
  pub v4 : ℕ

pub first_lanes : ℕ → Lanes
first_lanes seed = record {
  v1 = (seed + 0x9E3779B1 + 0x85EBCA77) % u32_mod;
  v2 = (seed + 0x85EBCA77) % u32_mod;
  v3 = seed;
  v4 = (seed + u32_mod - 0x9E3779B1) % u32_mod;
}

pub lane_rounds : ℕ → Bytes → Lanes → Lanes
unfolding xxh32_round read_u32
lane_rounds zero p v = v
lane_rounds (suc n) p v = lane_rounds n (drop 16 p) (record {
  v1 = xxh32_round v.v1 (read_u32 p);
  v2 = xxh32_round v.v2 (read_u32 (drop 4 p));
  v3 = xxh32_round v.v3 (read_u32 (drop 8 p));
  v4 = xxh32_round v.v4 (read_u32 (drop 12 p));
})

pub join_lanes : Lanes → ℕ
unfolding rotl
join_lanes v = (rotl v.v1 1 + rotl v.v2 7 + rotl v.v3 12 + rotl v.v4 18) % u32_mod

-- The loops over the words and the bytes that are left.
pub word_rounds : ℕ → Bytes → ℕ → ℕ
unfolding rotl read_u32
word_rounds zero p h32 = h32
word_rounds (suc n) p h32 =
    word_rounds n (drop 4 p)
      (rotl ((h32 + read_u32 p * 0xC2B2AE3D) % u32_mod) 17 * 0x27D4EB2F % u32_mod)

pub byte_rounds : Bytes → ℕ → ℕ
unfolding rotl
byte_rounds [] h32 = h32
byte_rounds (b ∷ p) h32 =
    byte_rounds p (rotl ((h32 + b * 0x165667B1) % u32_mod) 11 * 0x9E3779B1 % u32_mod)

pub avalanche : ℕ → ℕ
avalanche h32 =
    let a = bit_xor h32 (h32 / 2 ^ 15) * 0x85EBCA77 % u32_mod in
    let b = bit_xor a (a / 2 ^ 13) * 0xC2B2AE3D % u32_mod in bit_xor b (b / 2 ^ 16)

pub hash_xxhash : Bytes → ℕ → ℕ
unfolding first_lanes lane_rounds join_lanes word_rounds byte_rounds avalanche
hash_xxhash bytes seed =
    let size = length bytes in
    let blocks = size / 16 in
    let rest = drop (blocks * 16) bytes in
    let words = size % 16 / 4 in
    let lanes = join_lanes (lane_rounds blocks bytes (first_lanes seed)) in
    let begin = if leb 16 size then lanes else (seed + 0x165667B1) % u32_mod in
    let with_size = (begin + size % u32_mod) % u32_mod in
    avalanche (byte_rounds (drop (words * 4) rest) (word_rounds words rest with_size))

pub fnv_loop : Bytes → ℕ → ℕ
fnv_loop [] hash = hash
fnv_loop (b ∷ bytes) hash = fnv_loop bytes (bit_xor hash b * 0x01000193 % u32_mod)

pub hash_fnv1a : Bytes → ℕ
unfolding fnv_loop
hash_fnv1a bytes = fnv_loop bytes 0x811C9DC5

pub data CompressionType : Type 0 where
  plain gzip zlib : CompressionType

pub detect_compression : Bytes → CompressionType
detect_compression bytes =
    let first = get_or bytes 0 0 in
    let second = get_or bytes 1 0 in
    if ltb (length bytes) 2
    then plain
    else if first == 0x1F && second == 0x8B
    then gzip
    else if first == 0x78 && (second == 0x01 || second == 0x9C || second == 0xDA)
    then zlib
    else plain
