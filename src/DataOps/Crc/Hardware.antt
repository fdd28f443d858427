-- ===== src/DataOps/Crc/Hardware.antt =====
-- DataOps.cpp: on every architecture the checksum is CRC-32C, if the instructions of the processor do what their
-- manuals say.
use iacore.Base.{
  ℕ, ◌+◌, ◌*◌, ◌%◌, ◌^◌, ◌<◌, ◌≡◌, ap, ◌∙◌, true, false, [], ◌∷◌, Bytes, IsBytes, arith,
}
use iacore.DataOps.{
  read_u32, read_u64, slice_round, table_step, crc32_software_slice8, CrcUnit, crc32_x64_hw,
  crc32_arm64_hw, Architecture, x64, other_arch, arm64, crc32,
}
use iacore.DataOps.Crc.{byte_step, byte_steps, crc32c}
use iacore.DataOps.Crc.Linear.{table_step-byte_step}
use iacore.DataOps.Crc.Blocks.{
  slice_round-byte_steps, IsBlockRound, IsSingleRound, checksum-crc32c, byte_steps-lt,
}

-- Both instructions advance a register of 32 bits by CRC-32C; the wide one takes its bytes from the lowest on.
pub record IsCrcUnit (unit : CrcUnit) : Type 0 where
  pub u8_law : (crc b : ℕ) → crc < 2 ^ 32 → b < 256 → unit.crc32_u8 crc b ≡ byte_step crc b
  pub u64_law :
      (crc b0 b1 b2 b3 b4 b5 b6 b7 : ℕ)
      → crc < 2 ^ 32
      → IsBytes (b0 ∷ b1 ∷ b2 ∷ b3 ∷ b4 ∷ b5 ∷ b6 ∷ b7 ∷ [])
      → unit.crc32_u64 crc (
          b0
          + b1 * 2 ^ 8
          + b2 * 2 ^ 16
          + b3 * 2 ^ 24
          + (b4 + b5 * 2 ^ 8 + b6 * 2 ^ 16 + b7 * 2 ^ 24) * 2 ^ 32)
        ≡ byte_steps (b0 ∷ b1 ∷ b2 ∷ b3 ∷ b4 ∷ b5 ∷ b6 ∷ b7 ∷ []) crc

unit-IsBlockRound :
    (unit : CrcUnit) → IsCrcUnit unit → IsBlockRound (λ p crc. unit.crc32_u64 crc (read_u64 p))
unfolding read_u64 read_u32
unit-IsBlockRound unit is crc b0 b1 b2 b3 b4 b5 b6 b7 rest lt
      (h0, (h1, (h2, (h3, (h4, (h5, (h6, (h7, hs)))))))) =
    is.u64_law crc b0 b1 b2 b3 b4 b5 b6 b7 lt (h0, (h1, (h2, (h3, (h4, (h5, (h6, (h7, tt))))))))

x64_unit-IsBlockRound :
    (unit : CrcUnit)
    → IsCrcUnit unit
    → IsBlockRound (λ p crc. unit.crc32_u64 crc (read_u64 p) % 2 ^ 32)
x64_unit-IsBlockRound unit is crc b0 b1 b2 b3 b4 b5 b6 b7 rest lt h =
    let (h0, (h1, (h2, (h3, (h4, (h5, (h6, (h7, hs)))))))) = h in
    let block = b0 ∷ b1 ∷ b2 ∷ b3 ∷ b4 ∷ b5 ∷ b6 ∷ b7 ∷ [] in
    let small = byte_steps-lt block crc (h0, (h1, (h2, (h3, (h4, (h5, (h6, (h7, tt)))))))) lt in
    ap (λ t. t % 2 ^ 32) (unit-IsBlockRound unit is crc b0 b1 b2 b3 b4 b5 b6 b7 rest lt h)
    ∙ omega (arith, small)

unit-IsSingleRound :
    (unit : CrcUnit) → IsCrcUnit unit → IsSingleRound (λ crc b. unit.crc32_u8 crc b)
unit-IsSingleRound unit is crc b lt h = is.u8_law crc b lt h

slice_round-IsBlockRound : IsBlockRound slice_round
slice_round-IsBlockRound crc b0 b1 b2 b3 b4 b5 b6 b7 rest lt h =
    slice_round-byte_steps crc b0 b1 b2 b3 b4 b5 b6 b7 rest h

table_step-IsSingleRound : IsSingleRound table_step
table_step-IsSingleRound crc b lt h = table_step-byte_step crc b h

-- The checksum in software, with its eight tables and blocks of eight bytes, is CRC-32C bit by bit, for all data.
pub crc32_software_slice8-crc32c :
    (bytes : Bytes) → IsBytes bytes → crc32_software_slice8 bytes ≡ crc32c bytes
unfolding crc32_software_slice8
crc32_software_slice8-crc32c bytes h =
    checksum-crc32c slice_round table_step bytes slice_round-IsBlockRound table_step-IsSingleRound h

-- On every architecture `crc32` is CRC-32C bit by bit, for all data, when the instructions of the processor advance
-- the register by CRC-32C: so a checksum that one machine has made is accepted on every other.
pub crc32-crc32c :
    (arch : Architecture) (unit : CrcUnit) (bytes : Bytes)
    → IsCrcUnit unit
    → IsBytes bytes
    → crc32 arch unit bytes ≡ crc32c bytes
unfolding crc32 crc32_x64_hw crc32_arm64_hw
crc32-crc32c x64 unit bytes is h =
    checksum-crc32c _ _ bytes (x64_unit-IsBlockRound unit is) (unit-IsSingleRound unit is) h
crc32-crc32c other_arch unit bytes is h = crc32_software_slice8-crc32c bytes h
crc32-crc32c (arm64 true) unit bytes is h =
    checksum-crc32c _ _ bytes (unit-IsBlockRound unit is) (unit-IsSingleRound unit is) h
crc32-crc32c (arm64 false) unit bytes is h = crc32_software_slice8-crc32c bytes h
