-- ===== src/Ipc/Layout.antt =====
-- Src/IACore/inc/IACore/IPC.hpp and Src/IACore/imp/cpp/IPC.cpp: how a manager divides the shared
-- memory of a session. `u64` arithmetic is taken modulo 2 ^ 64. The laws are in Layout/Regions.
pub mod Regions
mod Tests
use iacore.Base.{ℕ, ◌+◌, ◌-◌, ◌/◌, ◌%◌, ◌^◌}

abbrev pub u64_mod : ℕ
u64_mod = 2 ^ 64

-- `sizeof(IpcSharedMemoryLayout)`: the padded metadata, two control blocks of 128 bytes each, and
-- the padded offsets.
abbrev pub layout_header_size : ℕ
layout_header_size = 384

-- Where the two control blocks stand in it.
abbrev pub moni_control_offset : ℕ
moni_control_offset = 64

abbrev pub mino_control_offset : ℕ
mino_control_offset = 192

-- The fields that `spawn_node` writes.
pub record SharedMemoryLayout : Type 0 where
  pub magic : ℕ
  pub version : ℕ
  pub total_size : ℕ
  pub moni_data_offset : ℕ
  pub moni_data_size : ℕ
  pub mino_data_offset : ℕ
  pub mino_data_size : ℕ

unfoldable pub divide : ℕ → SharedMemoryLayout
divide shared_memory_size =
    let usable_bytes = (shared_memory_size + u64_mod - layout_header_size) % u64_mod in
    let half = usable_bytes / 2 in
    let half_size = half - half % 64 in
    record {
      magic = 0x49414950;
      version = 1;
      total_size = shared_memory_size;
      moni_data_offset = layout_header_size;
      moni_data_size = half_size;
      mino_data_offset = (layout_header_size + half_size) % u64_mod;
      mino_data_size = half_size;
    }
