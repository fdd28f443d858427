-- ===== src/RingBuffer/Runs.antt =====
-- ADT/RingBuffer.hpp: a ring from its creation on, over any sequence of calls.
use mathlib.Core.Path.{ap₂}
use native.Mathlib.Nat.{mod-eq_of_lt}
use iacore.Base.{
  ℕ, ◌+◌, ◌%◌, ◌≤◌, ◌<◌, ◌≡◌, refl, List, [], ◌∷◌, length, true, false, ok, arith, ap, sym,
}
use iacore.RingBuffer.{Memory, RingBufferView, u32_mod, reset, view_of_block, create, push, pop}
use iacore.RingBuffer.Queue
use iacore.RingBuffer.Queue.{Packet, Call, do_push, do_pop, Reply, pushed, popped}
use iacore.RingBuffer.Packets.{Holds}
use iacore.RingBuffer.Push.{push_refines}
use iacore.RingBuffer.Pop.{pop_refines}

-- A client's calls on a view of a memory, in order, and what it sees of each.
unfoldable pub run : RingBufferView → Memory → List Call → List Reply
run v m [] = []
run v m (do_push id payload ∷ calls) =
    let (r, m') = push v id payload m in pushed r ∷ run v m' calls
run v m (do_pop header buffer ∷ calls) =
    let r = pop v header buffer m in popped r.result r.header r.buffer ∷ run v r.memory calls

-- Every packet identifier is a `u16`.
abbrev pub IdsFit : List Call → Type 0
IdsFit [] = Unit
IdsFit (do_push id payload ∷ calls) = (id < 65536) × IdsFit calls
IdsFit (do_pop header buffer ∷ calls) = IdsFit calls

-- On a memory that holds the packets `q`, every sequence of pushes and pops, with identifiers that are `u16`, has the
-- replies that the queue of these packets gives: results, headers and buffers.
pub run_refines :
    (calls : List Call) {v : RingBufferView} {m : Memory} {q : List Packet}
    → Holds v m q
    → IdsFit calls
    → run v m calls ≡ Queue.run v.m_capacity q calls
unfolding run Queue.run
run_refines [] h ids = refl
run_refines (do_push id payload ∷ calls) {v} {m} {q} h ids =
    let (same, after) = push_refines id payload h ids.0 in
    ap₂ (λ r rest. pushed r ∷ rest) same (run_refines calls after ids.1)
run_refines (do_pop header buffer ∷ calls) {v} {m} {q} h ids =
    let (same, same_header, same_buffer, after) = pop_refines q header buffer h in
    rw (same, same_header, same_buffer)
      (ap
        (λ rest.
          popped (Queue.pop q header buffer).result (Queue.pop q header buffer).header
            (Queue.pop q header buffer).buffer
          ∷ rest)
        (run_refines calls after ids))

-- A reset memory holds no packet.
reset-Holds :
    (v : RingBufferView) (m : Memory)
    → 0 < v.m_capacity
    → v.m_capacity + 65536 ≤ u32_mod
    → v.m_capacity ≤ length m.bytes
    → Holds v (reset v.m_capacity m) []
unfolding reset
reset-Holds v m pos small fits = record {
  fits = fits;
  small = small;
  read_in = pos;
  room = pos;
  write_at = sym (mod-eq_of_lt pos);
  held = refl;
  packets = tt;
}

-- An owner's ring over a buffer that holds its size, up to 2 ^ 32 - 65536 bytes, begins as the empty queue, and a
-- second process that attaches to the same block and buffer gets the same view and changes nothing.
pub create-Holds :
    (size : ℕ) (m : Memory)
    → 0 < size
    → size + 65536 ≤ u32_mod
    → size ≤ length m.bytes
    → (v : RingBufferView) × (m' : Memory) × (create true size true m ≡ ok (v, m'))
      × (v.m_capacity ≡ size)
      × Holds v m' []
      × (create true size false m' ≡ ok (v, m'))
unfolding create view_of_block reset
create-Holds size m pos small fits = (
  v,
  reset size m,
  ground (arith, same),
  refl,
  reset-Holds v m pos small fits,
  ground (arith, same),
)
  where
    v : RingBufferView
    v = record { m_data_ptr = true; m_capacity = size; m_control_block = true }

    same : size % u32_mod ≡ size
    same = omega arith
