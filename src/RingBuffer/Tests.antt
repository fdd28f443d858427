-- ===== src/RingBuffer/Tests.antt =====
-- ADT/RingBuffer.hpp: a ring of 16 bytes, by evaluation, and the theorems at concrete inputs.
use iacore.Base.{◌≡◌, refl, List, [], ◌∷◌, replicate, true, ok, err, some, arith}
use iacore.RingBuffer.{
  Memory, PacketHeader, RingBufferView, ring_buffer_full, buffer_too_small, header_bytes,
  header_of_bytes, copy_in, copy_out, write_wrapped, read_wrapped, free_space, push, pop,
}
use iacore.RingBuffer.Queue
use iacore.RingBuffer.Queue.{Packet, Call, do_push, do_pop, pushed, popped}
use iacore.RingBuffer.Packets.{Holds}
use iacore.RingBuffer.Push.{push_refines}
use iacore.RingBuffer.Pop.{pop_refines}
use iacore.RingBuffer.Runs.{run, run_refines}

abbrev view : RingBufferView
view = record { m_data_ptr = true; m_capacity = 16; m_control_block = true }

-- Packet 7 with payload 1 2 3, written round the end of the ring.
abbrev wrapped : Memory
wrapped = record {
  write_offset = 3;
  read_offset = 12;
  capacity = 16;
  bytes = 1 ∷ 2 ∷ 3 ∷ 0 ∷ 0 ∷ 0 ∷ 0 ∷ 0 ∷ 0 ∷ 0 ∷ 0 ∷ 0 ∷ 7 ∷ 0 ∷ 3 ∷ 0 ∷ [];
}

abbrev seven : Packet
seven = record { id = 7; payload = 1 ∷ 2 ∷ 3 ∷ [] }

abbrev no_header : PacketHeader
no_header = record { id = 0; payload_size = 0 }

abbrev script : List Call
script =
    do_push 9 (4 ∷ [])
    ∷ do_push 10 []
    ∷ do_pop no_header (0 ∷ 0 ∷ [])
    ∷ do_pop no_header (replicate 4 0)
    ∷ do_pop no_header (replicate 4 0)
    ∷ []

wrapped-Holds : Holds view wrapped (seven ∷ [])
unfolding header_bytes
wrapped-Holds = record {
  fits = omega arith;
  small = omega arith;
  read_in = omega arith;
  room = omega arith;
  write_at = refl;
  held = refl;
  packets = (record { id_fits = omega arith; size_fits = omega arith }, tt);
}

run-wrapped :
    run view wrapped script
    ≡ pushed (ok tt)
      ∷ pushed (err ring_buffer_full)
      ∷ popped (err (buffer_too_small 3 2)) (record { id = 7; payload_size = 3 }) (0 ∷ 0 ∷ [])
      ∷ popped (ok (some 3)) (record { id = 7; payload_size = 3 }) (1 ∷ 2 ∷ 3 ∷ 0 ∷ [])
      ∷ popped (ok (some 1)) (record { id = 9; payload_size = 1 }) (4 ∷ 0 ∷ 0 ∷ 0 ∷ [])
      ∷ []
unfolding run push pop free_space write_wrapped read_wrapped copy_in copy_out header_bytes
    header_of_bytes
run-wrapped = refl

push_refines_example :
    let (r, m') = push view 9 (4 ∷ []) wrapped in
    let (r', q') = Queue.push 16 (seven ∷ []) 9 (4 ∷ []) in (r ≡ r') × Holds view m' q'
push_refines_example = push_refines 9 (4 ∷ []) wrapped-Holds (omega arith)

pop_refines_example :
    let r = pop view no_header (0 ∷ 0 ∷ 0 ∷ []) wrapped in
    let s = Queue.pop (seven ∷ []) no_header (0 ∷ 0 ∷ 0 ∷ []) in
    (r.result ≡ s.result)
    × (r.header ≡ s.header)
    × (r.buffer ≡ s.buffer)
    × Holds view r.memory s.queue
pop_refines_example = pop_refines (seven ∷ []) no_header (0 ∷ 0 ∷ 0 ∷ []) wrapped-Holds

run_refines_example : run view wrapped script ≡ Queue.run 16 (seven ∷ []) script
run_refines_example = run_refines script wrapped-Holds (omega arith)
