-- ===== src/Ipc/Drain/Rounds.antt =====
-- IPC.cpp: what the loop over a ring does, round by round.
use mathlib.Core.Path.{subst}
use iacore.Base.{
  ℕ, zero, suc, ◌≤◌, ◌<◌, ◌≡◌, refl, ap, ◌∙◌, false, List, [], ◌∷◌, Bytes, length, arith, take, ltb,
  some, ok, ◌++◌, drop, length-append, length-drop, map, replicate,
}
use iacore.RingBuffer.{Memory, PacketHeader, RingBufferView, pop}
use iacore.RingBuffer.Queue
use iacore.RingBuffer.Queue.{Packet, header_of}
use iacore.RingBuffer.Packets.{Holds}
use iacore.RingBuffer.Pop.{pop_refines}
use iacore.Stream.Sequences.{take-append_le, take-all}
use iacore.Ipc.Drain.{drain}

-- A round that goes on: the call that it makes, and what it leaves.
record GoesOn (rounds : ℕ) (v : RingBufferView) (header : PacketHeader) (buffer : Bytes)
    (m : Memory) (call : ℕ × Bytes) (q : List Packet) : Type 0 where
  next_header : PacketHeader
  next_buffer : Bytes
  next_memory : Memory
  does : drain (suc rounds) v header buffer m ≡ record {
    calls = call ∷ (drain rounds v next_header next_buffer next_memory).calls;
    is_over = (drain rounds v next_header next_buffer next_memory).is_over;
  }
  holds : Holds v next_memory q
  room : 65536 ≤ length next_buffer

pub queue_pop :
    (p : Packet) (q : List Packet) (header : PacketHeader) (buffer : Bytes)
    → ltb (length buffer) (length p.payload) ≡ false
    → Queue.pop (p ∷ q) header buffer ≡ record {
      result = ok (some (length p.payload));
      header = header_of p;
      buffer = p.payload ++ drop (length p.payload) buffer;
      queue = q;
    }
unfolding Queue.pop
queue_pop p q header buffer fits = rw fits

take_front : (xs ys : Bytes) → take (length xs) (xs ++ ys) ≡ xs
take_front xs ys =
    take-append_le (length xs) xs ys (omega arith) ∙ take-all (length xs) xs (omega arith)

packet_round :
    (rounds : ℕ) {v : RingBufferView} {m : Memory} (p : Packet) (q : List Packet)
    (header : PacketHeader) (buffer : Bytes)
    → Holds v m (p ∷ q)
    → 65536 ≤ length buffer
    → GoesOn rounds v header buffer m (p.id, p.payload) q
unfolding drain Queue.pop
packet_round rounds {v} {m} p q header buffer h room =
    let (same, same_header, same_buffer, after) = pop_refines (p ∷ q) header buffer h in
    let short : length p.payload < 65536 = h.packets.0.size_fits in
    let took = queue_pop p q header buffer (ground arith) in
    let filled = p.payload ++ drop (length p.payload) buffer in
    record {
      next_header = header_of p;
      next_buffer = filled;
      next_memory = (pop v header buffer m).memory;
      does =
          rw
            (
              same ∙ ap (λ s. s.result) took,
              same_header ∙ ap (λ s. s.header) took,
              same_buffer ∙ ap (λ s. s.buffer) took,
            )
            (rw (take_front p.payload (drop (length p.payload) buffer)) refl);
      holds = subst (λ s. Holds v (pop v header buffer m).memory s.queue) took after;
      room = omega (
        arith,
        length-append p.payload (drop (length p.payload) buffer),
        length-drop (length p.payload) buffer,
      );
    }

empty_round :
    (rounds : ℕ) {v : RingBufferView} {m : Memory} (header : PacketHeader) (buffer : Bytes)
    → Holds v m []
    → 65536 ≤ length buffer
    → (m' : Memory) × (drain (suc rounds) v header buffer m ≡ record {
      calls =
          (header.id, take header.payload_size buffer) ∷ (drain rounds v header buffer m').calls;
      is_over = (drain rounds v header buffer m').is_over;
    })
      × Holds v m' []
unfolding drain Queue.pop
empty_round rounds {v} {m} header buffer h room =
    let (same, same_header, same_buffer, after) = pop_refines [] header buffer h in
    ((pop v header buffer m).memory, rw (same, same_header, same_buffer) refl, after)

-- On a ring that holds the packets `q`, to which nobody pushes meanwhile, and with the buffer of 65536 bytes that both
-- classes use, the first `length q` rounds hand every packet to `on_packet`, once and in order.
pub drain-packets :
    (q : List Packet) {v : RingBufferView} {m : Memory} (header : PacketHeader) (buffer : Bytes)
    → Holds v m q
    → 65536 ≤ length buffer
    → (drain (length q) v header buffer m).calls ≡ map (λ p. (p.id, p.payload)) q
unfolding drain
drain-packets [] header buffer h room = refl
drain-packets (p ∷ q) header buffer h room =
    let r = packet_round (length q) p q header buffer h room in
    ap (λ d. d.calls) r.does
    ∙ ap (λ calls. (p.id, p.payload) ∷ calls)
        (drain-packets q r.next_header r.next_buffer r.holds r.room)

-- On an empty ring, to which nobody pushes meanwhile, and with a buffer of at least 65536 bytes, every round hands the
-- header and the buffer of the last packet to `on_packet` again.
pub drain-empty :
    (rounds : ℕ) {v : RingBufferView} {m : Memory} (header : PacketHeader) (buffer : Bytes)
    → Holds v m []
    → 65536 ≤ length buffer
    → (drain rounds v header buffer m).calls
      ≡ replicate rounds (header.id, take header.payload_size buffer)
unfolding drain
drain-empty zero header buffer h room = refl
drain-empty (suc rounds) header buffer h room =
    let (m', does, holds) = empty_round rounds header buffer h room in
    ap (λ d. d.calls) does
    ∙ ap (λ calls. (header.id, take header.payload_size buffer) ∷ calls)
        (drain-empty rounds header buffer holds room)

-- The loop never ends: on a ring that holds packets or none, to which nobody pushes meanwhile, and with the buffer of
-- 65536 bytes that both classes use, it is not over after any number of rounds, since a `pop` of an empty ring returns
-- a value too.
pub drain-not_over :
    (rounds : ℕ) {v : RingBufferView} {m : Memory} (q : List Packet) (header : PacketHeader)
    (buffer : Bytes)
    → Holds v m q
    → 65536 ≤ length buffer
    → (drain rounds v header buffer m).is_over ≡ false
unfolding drain
drain-not_over zero q header buffer h room = refl
drain-not_over (suc rounds) [] header buffer h room =
    let (m', does, holds) = empty_round rounds header buffer h room in
    ap (λ d. d.is_over) does ∙ drain-not_over rounds [] header buffer holds room
drain-not_over (suc rounds) (p ∷ q) header buffer h room =
    let r = packet_round rounds p q header buffer h room in
    ap (λ d. d.is_over) r.does ∙ drain-not_over rounds q r.next_header r.next_buffer r.holds r.room
