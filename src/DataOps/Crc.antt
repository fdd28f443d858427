-- ===== src/DataOps/Crc.antt =====
-- DataOps.cpp: CRC-32C bit by bit, which the tables, the blocks and the instructions of a processor
-- compute faster. The laws are in Crc/Linear, Crc/Blocks and Crc/Hardware.
pub mod Linear
pub mod Blocks
pub mod Hardware
use iacore.Base.{ℕ, ◌/◌, ◌^◌, bit_xor, [], ◌∷◌, Bytes}
use iacore.DataOps.{crc_bits}

-- The register after a byte: eight steps of the shift register, with the byte added at its low end.
pub byte_step : ℕ → ℕ → ℕ
byte_step crc b = crc_bits 8 (bit_xor crc b)

unfoldable pub byte_steps : Bytes → ℕ → ℕ
unfolding byte_step
byte_steps [] crc = crc
byte_steps (b ∷ bytes) crc = byte_steps bytes (byte_step crc b)

-- CRC-32C of RFC 3720: the register begins with ones, and its complement is the checksum.
unfoldable pub crc32c : Bytes → ℕ
crc32c bytes = bit_xor (byte_steps bytes 0xFFFFFFFF) 0xFFFFFFFF
