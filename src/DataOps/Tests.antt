-- ===== src/DataOps/Tests.antt =====
-- DataOps.cpp: known values of the checksum and of the hashes, and the theorems at concrete inputs.
use iacore.Base.{ℕ, ◌<◌, ◌/◌, ◌%◌, ◌^◌, ◌+◌, ◌*◌, arith, ◌≡◌, refl, [], ◌∷◌, codes}
use iacore.DataOps.Crc.{byte_step, byte_steps, crc32c}
use iacore.DataOps.Crc.Hardware.{IsCrcUnit, crc32-crc32c}
use iacore.DataOps.{
  CrcUnit, crc32, x64, crc32_software_slice8, hash_xxhash, hash_fnv1a, detect_compression, zlib,
}

-- The instructions by their meaning.
abbrev byte_unit : CrcUnit
byte_unit = record {
  crc32_u64 = λ crc w.
      byte_steps
        (w % 256
          ∷ w / 2 ^ 8 % 256
          ∷ w / 2 ^ 16 % 256
          ∷ w / 2 ^ 24 % 256
          ∷ w / 2 ^ 32 % 256
          ∷ w / 2 ^ 40 % 256
          ∷ w / 2 ^ 48 % 256
          ∷ w / 2 ^ 56 % 256
          ∷ [])
        crc;
  crc32_u8 = byte_step;
}

same_bytes :
    (b0 b1 b2 b3 b4 b5 b6 b7 crc : ℕ)
    → b0 < 256
    → b1 < 256
    → b2 < 256
    → b3 < 256
    → b4 < 256
    → b5 < 256
    → b6 < 256
    → b7 < 256
    → let w =
        b0
        + b1 * 2 ^ 8
        + b2 * 2 ^ 16
        + b3 * 2 ^ 24
        + (b4 + b5 * 2 ^ 8 + b6 * 2 ^ 16 + b7 * 2 ^ 24) * 2 ^ 32 in
      byte_unit.crc32_u64 crc w ≡ byte_steps (b0 ∷ b1 ∷ b2 ∷ b3 ∷ b4 ∷ b5 ∷ b6 ∷ b7 ∷ []) crc
same_bytes b0 b1 b2 b3 b4 b5 b6 b7 crc h0 h1 h2 h3 h4 h5 h6 h7 =
    let w =
      b0
      + b1 * 2 ^ 8
      + b2 * 2 ^ 16
      + b3 * 2 ^ 24
      + (b4 + b5 * 2 ^ 8 + b6 * 2 ^ 16 + b7 * 2 ^ 24) * 2 ^ 32 in
    let e0 : w % 256 ≡ b0 = omega arith in
    let e1 : w / 2 ^ 8 % 256 ≡ b1 = omega arith in
    let e2 : w / 2 ^ 16 % 256 ≡ b2 = omega arith in
    let e3 : w / 2 ^ 24 % 256 ≡ b3 = omega arith in
    let e4 : w / 2 ^ 32 % 256 ≡ b4 = omega arith in
    let e5 : w / 2 ^ 40 % 256 ≡ b5 = omega arith in
    let e6 : w / 2 ^ 48 % 256 ≡ b6 = omega arith in
    let e7 : w / 2 ^ 56 % 256 ≡ b7 = omega arith in
    λ i. byte_steps (e0 i ∷ e1 i ∷ e2 i ∷ e3 i ∷ e4 i ∷ e5 i ∷ e6 i ∷ e7 i ∷ []) crc

byte_unit-IsCrcUnit : IsCrcUnit byte_unit
byte_unit-IsCrcUnit = record {
  u8_law = λ crc b lt h. refl;
  u64_law = λ crc b0 b1 b2 b3 b4 b5 b6 b7 lt h.
      let (h0, (h1, (h2, (h3, (h4, (h5, (h6, (h7, hs)))))))) = h in
      same_bytes b0 b1 b2 b3 b4 b5 b6 b7 crc h0 h1 h2 h3 h4 h5 h6 h7;
}

crc32-crc32c_example : crc32 x64 byte_unit (codes "123456789") ≡ crc32c (codes "123456789")
crc32-crc32c_example =
    crc32-crc32c x64 byte_unit (codes "123456789") byte_unit-IsCrcUnit (omega arith)

crc_check : crc32_software_slice8 (codes "123456789") ≡ 0xE3069283
unfolding crc32_software_slice8
crc_check = refl

xxhash_empty : hash_xxhash [] 0 ≡ 0x02CC5D05
unfolding hash_xxhash
xxhash_empty = refl

xxhash_abc : hash_xxhash (codes "abc") 0 ≡ 0x32D153FF
unfolding hash_xxhash
xxhash_abc = refl

xxhash_long : hash_xxhash (codes "Nobody inspects the spammish repetition") 0 ≡ 0xE2293B2F
unfolding hash_xxhash
xxhash_long = refl

fnv_a : hash_fnv1a (codes "a") ≡ 0xE40C292C
unfolding hash_fnv1a
fnv_a = refl

detect_zlib : detect_compression (0x78 ∷ 0x9C ∷ []) ≡ zlib
unfolding detect_compression
detect_zlib = refl
