-- ===== src/RingBuffer.antt =====
-- Src/IACore/inc/IACore/ADT/RingBuffer.hpp: a ring of packets in memory that two processes share.
-- A `RingBufferView` is a handle; what it points at (the control block and the data bytes) is the
-- state `Memory`, which each operation takes and returns, so two views of one memory alias.
-- `u32` arithmetic is taken modulo 2 ^ 32, `usize` arithmetic on such values cannot wrap.
-- The laws are in RingBuffer/Wrap (the copies), RingBuffer/Packets (bytes of a header), RingBuffer/Queue (the
-- queue of packets that a ring implements), RingBuffer/Push, RingBuffer/Pop and RingBuffer/Runs.
pub mod Wrap
pub mod Queue
pub mod Packets
pub mod Push
pub mod Pop
pub mod Runs
mod Tests
use iacore.Base.{
  ℕ, zero, suc, ◌+◌, ◌-◌, ◌*◌, ◌/◌, ◌%◌, ◌^◌, Bool, true, false, ◌&&◌, not, Option, none, some, [],
  ◌∷◌, ◌++◌, Bytes, length, get_or, set, take, drop, ltb, leb, ◌==◌, if◌then◌else◌, Result, ok, err,
}

-- `ControlBlock` and the bytes behind `m_data_ptr`.
pub record Memory : Type 0 where
  pub write_offset : ℕ
  pub read_offset : ℕ
  pub capacity : ℕ
  pub bytes : Bytes

pub record PacketHeader : Type 0 where
  pub id : ℕ
  pub payload_size : ℕ

-- The two pointers are told apart from null only.
pub record RingBufferView : Type 0 where
  pub m_data_ptr : Bool
  pub m_capacity : ℕ
  pub m_control_block : Bool

pub data RingError : Type 0 where
  buffer_too_small_for_control_block capacity_mismatch control_block_is_null buffer_is_empty :
      RingError
  data_size_exceeds_u16 ring_buffer_full : RingError
  buffer_too_small : (needed provided : ℕ) → RingError

abbrev pub u32_mod : ℕ
u32_mod = 2 ^ 32

-- `sizeof(ControlBlock)` and `sizeof(PacketHeader)`
abbrev pub control_block_size : ℕ
control_block_size = 128

abbrev pub header_size : ℕ
header_size = 4

-- What the constructors of an owner store.
pub reset : ℕ → Memory → Memory
reset cap m = record m { write_offset = 0; read_offset = 0; capacity = cap }

pub view_of_buffer : ℕ → Bool → Memory → RingBufferView × Memory
unfolding reset
view_of_buffer size is_owner m =
    let cap = (size % u32_mod + u32_mod - control_block_size) % u32_mod in
    (
      record { m_data_ptr = true; m_capacity = cap; m_control_block = true },
      if is_owner then reset cap m else m,
    )

pub view_of_block : Bool → Bool → ℕ → Bool → Memory → RingBufferView × Memory
unfolding reset
view_of_block has_block has_data size is_owner m =
    let cap = size % u32_mod in
    (
      record { m_data_ptr = has_data; m_capacity = cap; m_control_block = has_block },
      if is_owner then reset cap m else m,
    )

pub default_instance : RingBufferView
default_instance = record { m_data_ptr = false; m_capacity = 0; m_control_block = false }

-- `create` over one buffer that begins with the control block.
pub create_in_buffer : ℕ → Bool → Memory → Result RingError (RingBufferView × Memory)
unfolding view_of_buffer
create_in_buffer size is_owner m =
    if leb size control_block_size
    then err buffer_too_small_for_control_block
    else if not is_owner
        && not (m.capacity == (size % u32_mod + u32_mod - control_block_size) % u32_mod)
    then err capacity_mismatch
    else ok (view_of_buffer size is_owner m)

-- `create` over a control block that stands elsewhere.
pub create : Bool → ℕ → Bool → Memory → Result RingError (RingBufferView × Memory)
unfolding view_of_block
create has_block size is_owner m =
    if not has_block
    then err control_block_is_null
    else if size == 0
    then err buffer_is_empty
    else ok (view_of_block true true size is_owner m)

unfoldable pub is_valid : RingBufferView → Bool
is_valid v = v.m_control_block && v.m_data_ptr && not (v.m_capacity == 0)

-- `memcpy` into the memory and out of it, from an offset on.
pub copy_in : Bytes → ℕ → Bytes → Bytes
copy_in mem offset [] = mem
copy_in mem offset (x ∷ xs) = copy_in (set mem offset x) (offset + 1) xs

pub copy_out : Bytes → ℕ → ℕ → Bytes
copy_out mem offset zero = []
copy_out mem offset (suc n) = get_or mem offset 0 ∷ copy_out mem (offset + 1) n

pub write_wrapped : ℕ → ℕ → Bytes → Bytes → Bytes
write_wrapped cap offset src mem =
    let size = length src in
    if leb ((offset + size) % u32_mod) cap
    then copy_in mem offset src
    else (let first_chunk = (cap + u32_mod - offset) % u32_mod in
        copy_in (copy_in mem offset (take first_chunk src)) 0 (drop first_chunk src))

pub read_wrapped : ℕ → ℕ → ℕ → Bytes → Bytes
read_wrapped cap offset size mem =
    if leb ((offset + size) % u32_mod) cap
    then copy_out mem offset size
    else (let first_chunk = (cap + u32_mod - offset) % u32_mod in
        let second_chunk = (size + u32_mod - first_chunk) % u32_mod in
        copy_out mem offset first_chunk ++ copy_out mem 0 second_chunk)

-- A header in memory: two little-endian `u16`.
unfoldable pub header_bytes : PacketHeader → Bytes
header_bytes h =
    h.id % 256 ∷ h.id / 256 % 256 ∷ h.payload_size % 256 ∷ h.payload_size / 256 % 256 ∷ []

pub header_of_bytes : Bytes → PacketHeader
header_of_bytes b = record {
  id = get_or b 0 0 + get_or b 1 0 * 256;
  payload_size = get_or b 2 0 + get_or b 3 0 * 256;
}

-- What `pop` gives back: its result, `out_header`, `out_buffer` and the memory.
pub record Popped : Type 0 where
  pub result : Result RingError (Option ℕ)
  pub header : PacketHeader
  pub buffer : Bytes
  pub memory : Memory

pub pop : RingBufferView → PacketHeader → Bytes → Memory → Popped
pop v out_header out_buffer m =
    let cap = v.m_capacity in
    let write = m.write_offset in
    let read = m.read_offset in
    let header = header_of_bytes (read_wrapped cap read header_size m.bytes) in
    let payload = read_wrapped cap ((read + header_size) % cap) header.payload_size m.bytes in
    let new_read_offset = (read + header_size + header.payload_size) % cap in
    if read == write
    then record { result = ok none; header = out_header; buffer = out_buffer; memory = m }
    else if ltb (length out_buffer) header.payload_size
    then record {
      result = err (buffer_too_small header.payload_size (length out_buffer));
      header = header;
      buffer = out_buffer;
      memory = m;
    }
    else record {
      result = ok (some header.payload_size);
      header = header;
      buffer =
          if ltb 0 header.payload_size
          then payload ++ drop header.payload_size out_buffer
          else out_buffer;
      memory = record m { read_offset = new_read_offset };
    }

pub free_space : ℕ → Memory → ℕ
free_space cap m =
    if leb m.read_offset m.write_offset
    then ((cap + u32_mod - m.write_offset) % u32_mod + m.read_offset) % u32_mod
    else (m.read_offset + u32_mod - m.write_offset) % u32_mod

pub push : RingBufferView → ℕ → Bytes → Memory → Result RingError (Unit {0}) × Memory
push v packet_id payload m =
    let cap = v.m_capacity in
    let size = length payload in
    let total_size = (header_size + size) % u32_mod in
    let write = m.write_offset in
    let header : PacketHeader = record { id = packet_id; payload_size = size % 2 ^ 16 } in
    let data_write_offset = (write + header_size) % cap in
    let with_header = write_wrapped cap write (header_bytes header) m.bytes in
    let with_data =
      if not (size == 0)
      then write_wrapped cap data_write_offset payload with_header
      else with_header in
    if ltb 65535 size
    then (err data_size_exceeds_u16, m)
    else if leb (free_space cap m) total_size
    then (err ring_buffer_full, m)
    else (ok tt, record m { bytes = with_data; write_offset = (data_write_offset + size) % cap })
