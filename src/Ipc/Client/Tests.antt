-- ===== src/Ipc/Client/Tests.antt =====
-- IPC.cpp: the theorem on a node with an empty ring of 16 bytes.
use iacore.Base.{refl, true, some, [], replicate, codes, arith}
use iacore.RingBuffer.{Memory, RingBufferView}
use iacore.RingBuffer.Packets.{Holds}
use iacore.Ipc.Node.{IpcNode}

abbrev view : RingBufferView
view = record { m_data_ptr = true; m_capacity = 16; m_control_block = true }

abbrev memory : Memory
memory = record { write_offset = 0; read_offset = 0; capacity = 16; bytes = replicate 16 0 }

abbrev node : IpcNode
node = record {
  m_shm_name = codes "ia_shm_1";
  m_shared_memory = some 4096;
  m_receive_buffer = replicate 65536 0;
  m_socket = some 6;
  m_moni = record { view = view; control_at = 4160; data_at = 4480 };
  m_mino = record { view = view; control_at = 4288; data_at = 4496 };
}

empty-Holds : Holds view memory []
empty-Holds = record {
  fits = omega arith;
  small = omega arith;
  read_in = omega arith;
  room = omega arith;
  write_at = refl;
  held = refl;
  packets = tt;
}
