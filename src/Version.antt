-- ===== src/Version.antt =====
-- Src/IACore/inc/IACore/PCH.hpp: Version, three `u32`. Its laws are in Version/Order.
pub mod Order
mod Tests
use iacore.Base.{ℕ, ◌*◌, ◌%◌, ◌^◌, bit_or}

pub record Version : Type 0 where
  pub major : ℕ
  pub minor : ℕ
  pub patch : ℕ

pub to_u64 : Version → ℕ
to_u64 v = bit_or (bit_or (v.major * 2 ^ 40 % 2 ^ 64) (v.minor * 2 ^ 16 % 2 ^ 64)) v.patch
