-- ===== src/Ipc/Layout/Regions.antt =====
-- IPC.cpp: the two rings of a session lie inside its shared memory and apart from one another.
use iacore.Base.{ℕ, ◌+◌, ◌%◌, ◌^◌, ◌≤◌, ◌<◌, ◌≡◌, refl, arith}
use iacore.Ipc.Layout.{layout_header_size, SharedMemoryLayout, divide}

-- What both processes rely on: the header, the ring of the manager and the ring of the node follow one another inside
-- the memory, each ring begins on a cache line, and the memory carries the marks that `connect` checks.
pub record IsDivided (size : ℕ) (l : SharedMemoryLayout) : Type 0 where
  pub behind_header : layout_header_size ≤ l.moni_data_offset
  pub apart : l.moni_data_offset + l.moni_data_size ≤ l.mino_data_offset
  pub inside : l.mino_data_offset + l.mino_data_size ≤ size
  pub moni_aligned : l.moni_data_offset % 64 ≡ 0
  pub mino_aligned : l.mino_data_offset % 64 ≡ 0
  pub same_size : l.moni_data_size ≡ l.mino_data_size
  pub little_lost : size < l.mino_data_offset + l.mino_data_size + 130
  pub marked : (l.magic ≡ 0x49414950) × (l.version ≡ 1)

-- A shared memory of at least the header's size, and whose size is a `u32`, is divided into two rings of one size that
-- lie behind the header, apart from each other and inside the memory, and begin at multiples of 64; at most 129 bytes
-- stand behind them; and the header has the signature and the version that a node looks for.
pub divide-IsDivided :
    (size : ℕ) → layout_header_size ≤ size → size < 2 ^ 32 → IsDivided size (divide size)
unfolding divide
divide-IsDivided size h lt = record {
  behind_header = omega arith;
  apart = omega arith;
  inside = omega arith;
  moni_aligned = omega arith;
  mino_aligned = omega arith;
  same_size = refl;
  little_lost = omega arith;
  marked = (refl, refl);
}

-- A shared memory that is smaller than the header is not refused: the difference wraps, and the ring of the manager is
-- then larger than 2 ^ 62 bytes.
pub divide_small : (size : ℕ) → size < layout_header_size → 2 ^ 62 < (divide size).moni_data_size
unfolding divide
divide_small size lt = omega arith
