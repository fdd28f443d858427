-- ===== src/Ipc/Drain/Tests.antt =====
-- IPC.cpp: the theorems on a ring of 16 bytes that holds one packet.
use iacore.Base.{
  ℕ, ◌≤◌, ◌≡◌, refl, true, [], ◌∷◌, Bytes, length, map, replicate, length-replicate, arith,
}
use iacore.RingBuffer.{Memory, PacketHeader, RingBufferView, header_bytes}
use iacore.RingBuffer.Queue.{Packet}
use iacore.RingBuffer.Packets.{Holds}
use iacore.Ipc.Drain.{drain}
use iacore.Ipc.Drain.Rounds.{drain-packets}

abbrev view : RingBufferView
view = record { m_data_ptr = true; m_capacity = 16; m_control_block = true }

abbrev one_packet : Memory
one_packet = record {
  write_offset = 7;
  read_offset = 0;
  capacity = 16;
  bytes = 9 ∷ 0 ∷ 3 ∷ 0 ∷ 1 ∷ 2 ∷ 3 ∷ 0 ∷ 0 ∷ 0 ∷ 0 ∷ 0 ∷ 0 ∷ 0 ∷ 0 ∷ 0 ∷ [];
}

abbrev packet : Packet
packet = record { id = 9; payload = 1 ∷ 2 ∷ 3 ∷ [] }

abbrev no_header : PacketHeader
no_header = record { id = 0; payload_size = 0 }

abbrev receive_buffer : Bytes
receive_buffer = replicate 65536 0

one_packet-Holds : Holds view one_packet (packet ∷ [])
unfolding header_bytes
one_packet-Holds = record {
  fits = omega arith;
  small = omega arith;
  read_in = omega arith;
  room = omega arith;
  write_at = refl;
  held = refl;
  packets = (record { id_fits = omega arith; size_fits = omega arith }, tt);
}

no_packet-Holds : Holds view (record one_packet { read_offset = 7 }) []
no_packet-Holds = record {
  fits = omega arith;
  small = omega arith;
  read_in = omega arith;
  room = omega arith;
  write_at = refl;
  held = refl;
  packets = tt;
}

buffer_room : 65536 ≤ length receive_buffer
buffer_room = omega (arith, length-replicate {A = ℕ} 65536 0)

drain-packets_example :
    (drain (length (packet ∷ [])) view no_header receive_buffer one_packet).calls
    ≡ map (λ p. (p.id, p.payload)) (packet ∷ [])
drain-packets_example =
    drain-packets (packet ∷ []) no_header receive_buffer one_packet-Holds buffer_room
