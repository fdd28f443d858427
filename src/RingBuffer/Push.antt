-- ===== src/RingBuffer/Push.antt =====
-- ADT/RingBuffer.hpp: `push` implements the push of the queue.
use native.Mathlib.Nat.{mod-add-mod}
use iacore.Base.{
  ℕ, ◌+◌, ◌-◌, ◌%◌, ◌^◌, ◌<◌, ◌≡◌, refl, sym, ap, ◌∙◌, not, List, [], ◌∷◌, ◌++◌, append-nil, Bytes,
  All-append, length, length-append, ltb, leb, Bool-cases, inl, inr, false, ◌==◌, if◌then◌else◌,
  arith,
}
use iacore.RingBuffer.{
  Memory, RingBufferView, u32_mod, header_size, header_bytes, write_wrapped, push,
}
use iacore.RingBuffer.Queue
use iacore.RingBuffer.Queue.{Packet, header_of, used}
use iacore.RingBuffer.Wrap.{
  window, ring_put, ring_put-mod, ring_put-append, length-ring_put, window-ring_put,
  write_wrapped-ring_put,
}
use iacore.RingBuffer.Packets.{
  packet_bytes, queue_bytes, IsPacket, Holds, length-header_bytes, free_space_lem, used-append,
  queue_bytes-append,
}

-- The second copy is skipped for an empty payload, where it would change nothing.
unless_empty :
    (cap t : ℕ) (payload mem : Bytes) {written : Bytes}
    → written ≡ ring_put cap mem t payload
    → (if not (length payload == 0) then written else mem) ≡ ring_put cap mem t payload
unless_empty cap t [] mem e = refl
unless_empty cap t (x ∷ xs) mem e = ground arith

-- A packet that fits, behind the packets of `q`.
module _ {v : RingBufferView} {m : Memory} {q : List Packet} (h : Holds v m q) (p : Packet) where
  abbrev cap : ℕ
  cap = v.m_capacity

  -- the position behind the packets
  abbrev tail : ℕ
  tail = m.read_offset + used q

  record Fits : Type 0 where
    size_fits : length p.payload < 65536
    id_fits : p.id < 65536
    has_room : used q + 4 + length p.payload < cap

  -- the bytes that `push` leaves
  abbrev stored : Bytes
  stored =
      let with_header = write_wrapped cap m.write_offset (header_bytes (header_of p)) m.bytes in
      if not (length p.payload == 0)
      then write_wrapped cap ((m.write_offset + header_size) % cap) p.payload with_header
      else with_header

  write_in : m.write_offset < cap
  write_in = omega (arith, h.write_at, h.read_in)

  header_put :
      Fits
      → write_wrapped cap m.write_offset (header_bytes (header_of p)) m.bytes
        ≡ ring_put cap m.bytes tail (header_bytes (header_of p))
  header_put f =
      write_wrapped-ring_put cap m.write_offset (header_bytes (header_of p)) m.bytes write_in
        (omega (arith, length-header_bytes (header_of p)))
        (omega (arith, length-header_bytes (header_of p), h.small, write_in))
        (omega (arith, h.small))
      ∙ ap (λ t. ring_put cap m.bytes t (header_bytes (header_of p))) h.write_at
      ∙ ring_put-mod cap (header_bytes (header_of p)) m.bytes tail

  payload_put :
      Fits
      → (mem : Bytes)
      → write_wrapped cap ((m.write_offset + header_size) % cap) p.payload mem
        ≡ ring_put cap mem (tail + 4) p.payload
  payload_put f mem =
      write_wrapped-ring_put cap ((m.write_offset + 4) % cap) p.payload mem
        (omega (arith, h.read_in)) (omega arith) (omega (arith, h.small, h.read_in))
        (omega (arith, h.small))
      ∙ ring_put-mod cap p.payload mem (m.write_offset + 4)
      ∙ ap (λ t. ring_put cap mem (t + 4) p.payload) h.write_at
      ∙ sym (ring_put-mod cap p.payload mem (tail % cap + 4))
      ∙ ap (λ t. ring_put cap mem t p.payload) (mod-add-mod tail cap 4)
      ∙ ring_put-mod cap p.payload mem (tail + 4)

  stored_lem : Fits → stored ≡ ring_put cap m.bytes tail (packet_bytes p)
  stored_lem f =
      unless_empty cap (tail + 4) p.payload with_header (payload_put f with_header)
      ∙ ap (λ t. ring_put cap t (tail + 4) p.payload) (header_put f)
      ∙ joined
    where
      with_header : Bytes
      with_header = write_wrapped cap m.write_offset (header_bytes (header_of p)) m.bytes

      joined :
          ring_put cap (ring_put cap m.bytes tail (header_bytes (header_of p))) (tail + 4) p.payload
          ≡ ring_put cap m.bytes tail (packet_bytes p)
      joined =
          ap
            (λ n.
              ring_put cap (ring_put cap m.bytes tail (header_bytes (header_of p))) (tail + n)
                p.payload)
            (sym (length-header_bytes (header_of p)))
          ∙ sym (ring_put-append cap (header_bytes (header_of p)) p.payload m.bytes tail)

  -- The state behind a successful `push`.
  abbrev pushed : Memory
  pushed = record m {
    bytes = stored;
    write_offset = ((m.write_offset + header_size) % cap + length p.payload) % cap;
  }

  pushed-Holds : Fits → Holds v pushed (q ++ p ∷ [])
  pushed-Holds f = record {
    fits = omega (
      arith,
      ap length (stored_lem f),
      length-ring_put cap m.bytes tail (packet_bytes p),
      h.fits,
    );
    small = h.small;
    read_in = h.read_in;
    room = omega (arith, used-append q (p ∷ []));
    write_at = new_offset;
    held = new_bytes;
    packets =
        All-append IsPacket q (p ∷ []) h.packets
          (record { id_fits = f.id_fits; size_fits = f.size_fits }, tt);
  }
    where
      n : ℕ
      n = length p.payload

      new_offset :
          ((m.write_offset + 4) % cap + n) % cap ≡ (m.read_offset + used (q ++ p ∷ [])) % cap
      new_offset =
          mod-add-mod (m.write_offset + 4) cap n
          ∙ ap (λ t. (t + 4 + n) % cap) h.write_at
          ∙ ap (λ t. t % cap) {y = tail % cap + (4 + n)} (omega arith)
          ∙ mod-add-mod tail cap (4 + n)
          ∙ ap (λ t. t % cap) (omega (arith, used-append q (p ∷ [])))

      new_used : used (q ++ p ∷ []) ≡ used q + length (packet_bytes p)
      new_used = omega (
        arith,
        used-append q (p ∷ []),
        length-append (header_bytes (header_of p)) p.payload,
        length-header_bytes (header_of p),
      )

      new_bytes : window cap stored m.read_offset (used (q ++ p ∷ [])) ≡ queue_bytes (q ++ p ∷ [])
      new_bytes =
          ap (λ t. window cap t m.read_offset (used (q ++ p ∷ []))) (stored_lem f)
          ∙ ap (λ t. window cap (ring_put cap m.bytes tail (packet_bytes p)) m.read_offset t)
              new_used
          ∙ window-ring_put cap (packet_bytes p) m.bytes m.read_offset (used q)
              (omega (arith, new_used, used-append q (p ∷ []))) h.fits
          ∙ ap (λ t. t ++ packet_bytes p) h.held
          ∙ ap (λ t. queue_bytes q ++ t) (sym (append-nil (packet_bytes p)))
          ∙ sym (queue_bytes-append q (p ∷ []))

-- On a memory that holds the packets `q`, `push` gives the result of the queue's push and leaves
-- the memory holding the queue that the push leaves, for every identifier that is a `u16`.
pub push_refines :
    {v : RingBufferView} {m : Memory} {q : List Packet} (id : ℕ) (payload : Bytes)
    → Holds v m q
    → id < 65536
    → let (r, m') = push v id payload m in
      let (r', q') = Queue.push v.m_capacity q id payload in (r ≡ r') × Holds v m' q'
unfolding push Queue.push
push_refines {v} {m} {q} id payload h fits = elim (Bool-cases (ltb 65535 (length payload))) [
  | inl big ↦ rw big (refl, h)
  | inr small ↦
      rw (small, total small, free_space_lem h, low small)
        (elim (Bool-cases (leb (v.m_capacity - used q) (4 + length payload))) [
          | inl full ↦ rw full (refl, h)
          | inr free ↦ rw free (
            refl,
            pushed-Holds h p
                (record { size_fits = ground arith; id_fits = fits; has_room = ground arith }),
          )
        ])
]
  where
    p : Packet
    p = record { id = id; payload = payload }

    total : ltb 65535 (length payload) ≡ false → (4 + length payload) % u32_mod ≡ 4 + length payload
    total small = ground arith

    low : ltb 65535 (length payload) ≡ false → length payload % 2 ^ 16 ≡ length payload
    low small = ground arith
