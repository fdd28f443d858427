-- ===== src/RingBuffer/Queue.antt =====
-- What a client of ADT/RingBuffer.hpp sees: a queue of packets that take at most `cap - 1` bytes.
use iacore.Base.{
  ℕ, ◌+◌, ◌-◌, Option, none, some, List, [], ◌∷◌, ◌++◌, Bytes, length, drop, ltb, leb,
  if◌then◌else◌, Result, ok, err,
}
use iacore.RingBuffer.{
  PacketHeader, RingError, data_size_exceeds_u16, ring_buffer_full, buffer_too_small, header_size,
}

pub record Packet : Type 0 where
  pub id : ℕ
  pub payload : Bytes

abbrev pub header_of : Packet → PacketHeader
header_of p = record { id = p.id; payload_size = length p.payload }

abbrev pub used : List Packet → ℕ
used [] = 0
used (p ∷ q) = header_size + length p.payload + used q

-- A packet is refused if its size is no `u16` or if it would fill the ring to the last byte.
unfoldable pub push : ℕ → List Packet → ℕ → Bytes → Result RingError (Unit {0}) × List Packet
push cap q id payload =
    if ltb 65535 (length payload)
    then (err data_size_exceeds_u16, q)
    else if leb (cap - used q) (header_size + length payload)
    then (err ring_buffer_full, q)
    else (ok tt, q ++ record { id = id; payload = payload } ∷ [])

-- The result, the header, the buffer and the queue that are left. A buffer that is too small
-- leaves the packet in the queue, and the header tells its size.
pub record Popped : Type 0 where
  pub result : Result RingError (Option ℕ)
  pub header : PacketHeader
  pub buffer : Bytes
  pub queue : List Packet

unfoldable pub pop : List Packet → PacketHeader → Bytes → Popped
pop [] header buffer = record { result = ok none; header = header; buffer = buffer; queue = [] }
pop (p ∷ q) header buffer =
    if ltb (length buffer) (length p.payload)
    then record {
      result = err (buffer_too_small (length p.payload) (length buffer));
      header = header_of p;
      buffer = buffer;
      queue = p ∷ q;
    }
    else record {
      result = ok (some (length p.payload));
      header = header_of p;
      buffer = p.payload ++ drop (length p.payload) buffer;
      queue = q;
    }

-- A client's calls, in order, and what it sees of each.
pub data Call : Type 0 where
  do_push : (id : ℕ) (payload : Bytes) → Call
  do_pop : (header : PacketHeader) (buffer : Bytes) → Call

pub data Reply : Type 0 where
  pushed : Result RingError (Unit {0}) → Reply
  popped : Result RingError (Option ℕ) → PacketHeader → Bytes → Reply

unfoldable pub run : ℕ → List Packet → List Call → List Reply
unfolding push pop
run cap q [] = []
run cap q (do_push id payload ∷ calls) =
    let (r, q') = push cap q id payload in pushed r ∷ run cap q' calls
run cap q (do_pop header buffer ∷ calls) =
    let r = pop q header buffer in popped r.result r.header r.buffer ∷ run cap r.queue calls
