-- ===== src/RingBuffer/Packets.antt =====
-- ADT/RingBuffer.hpp: the bytes of a packet, and when a memory holds a queue of packets.
use native.Mathlib.Nat.{mod-eq_of_lt, mod-eq-sub-mod}
use native.Mathlib.Decide.{dec_lt}
use iacore.Base.{
  ◌+◌, ◌-◌, ◌%◌, ◌≤◌, ◌<◌, ◌≡◌, refl, sym, ap, ◌∙◌, List, [], ◌∷◌, ◌++◌, append_assoc, Bytes, All,
  length, arith,
}
use iacore.RingBuffer.{
  Memory, PacketHeader, RingBufferView, u32_mod, header_bytes, header_of_bytes, free_space,
}
use iacore.RingBuffer.Queue.{Packet, header_of, used}
use iacore.RingBuffer.Wrap.{window}

-- A packet as it stands in the ring.
abbrev pub packet_bytes : Packet → Bytes
packet_bytes p = header_bytes (header_of p) ++ p.payload

abbrev pub queue_bytes : List Packet → Bytes
queue_bytes [] = []
queue_bytes (p ∷ q) = packet_bytes p ++ queue_bytes q

pub record IsPacket (p : Packet) : Type 0 where
  pub id_fits : p.id < 65536
  pub size_fits : length p.payload < 65536

-- The view's memory holds the packets of `q`, oldest first.
pub record Holds (v : RingBufferView) (m : Memory) (q : List Packet) : Type 0 where
  pub fits : v.m_capacity ≤ length m.bytes
  pub small : v.m_capacity + 65536 ≤ u32_mod
  pub read_in : m.read_offset < v.m_capacity
  pub room : used q < v.m_capacity
  pub write_at : m.write_offset ≡ (m.read_offset + used q) % v.m_capacity
  pub held : window v.m_capacity m.bytes m.read_offset (used q) ≡ queue_bytes q
  pub packets : All IsPacket q

pub header_of_bytes-header_bytes :
    (h : PacketHeader)
    → h.id < 65536
    → h.payload_size < 65536
    → header_of_bytes (header_bytes h) ≡ h
unfolding header_of_bytes header_bytes
header_of_bytes-header_bytes h hi hs = ground arith

pub length-header_bytes : (h : PacketHeader) → length (header_bytes h) ≡ 4
unfolding header_bytes
length-header_bytes h = refl

pub used-append : (q r : List Packet) → used (q ++ r) ≡ used q + used r
used-append [] r = omega arith
used-append (p ∷ q) r = omega (arith, used-append q r)

pub queue_bytes-append : (q r : List Packet) → queue_bytes (q ++ r) ≡ queue_bytes q ++ queue_bytes r
queue_bytes-append [] r = refl
queue_bytes-append (p ∷ q) r =
    ap (λ t. packet_bytes p ++ t) (queue_bytes-append q r)
    ∙ sym (append_assoc (packet_bytes p) (queue_bytes q) (queue_bytes r))

-- The free space that `push` computes is what the packets leave of the capacity.
pub free_space_lem :
    {v : RingBufferView} {m : Memory} {q : List Packet}
    → Holds v m q
    → free_space v.m_capacity m ≡ v.m_capacity - used q
unfolding free_space
free_space_lem {v} {m} {q} h = elim (dec_lt (m.read_offset + used q) v.m_capacity) [
  | yes p ↦ ground (arith, mod-eq_of_lt p)
  | no p ↦ ground (
    arith,
    mod-eq-sub-mod {n = m.read_offset + used q} {m = v.m_capacity} (omega arith),
    mod-eq_of_lt {n = m.read_offset + used q - v.m_capacity} {m = v.m_capacity} (omega arith),
  )
]
