-- ===== src/RingBuffer/Pop.antt =====
-- ADT/RingBuffer.hpp: `pop` implements the pop of the queue.
use native.Mathlib.Nat.{mod-eq_of_lt, mod-add-mod}
use iacore.Base.{
  ℕ, ◌+◌, ◌%◌, ◌≡◌, ◌≢◌, refl, sym, ap, ◌∙◌, List, [], ◌∷◌, ◌++◌, Bytes, length, length-append,
  drop, ltb, Bool-cases, true, false, inl, inr, ◌==◌, if◌then◌else◌, arith,
}
use iacore.RingBuffer.{
  Memory, PacketHeader, RingBufferView, header_bytes, header_of_bytes, read_wrapped, pop,
}
use iacore.RingBuffer.Queue
use iacore.RingBuffer.Queue.{Packet, header_of, used}
use iacore.RingBuffer.Wrap.{
  window, window-mod, window-append, length-window, read_wrapped-window, mod-ne,
}
use iacore.RingBuffer.Packets.{
  packet_bytes, queue_bytes, Holds, length-header_bytes, header_of_bytes-header_bytes,
}

-- Equal lists split alike at equal lengths.
append_inj {ℓ} :
    {A : Type ℓ} (s s' t t' : List A)
    → s ++ t ≡ s' ++ t'
    → length s ≡ length s'
    → (s ≡ s') × (t ≡ t')
append_inj [] [] t t' e n = (refl, e)
append_inj [] (x ∷ s') t t' e n = absurd (omega arith)
append_inj (x ∷ s) [] t t' e n = absurd (omega arith)
append_inj (x ∷ s) (y ∷ s') t t' e n =
    let (es, et) = append_inj s s' t t' (cc) (omega arith) in (cc, et)

module _ {v : RingBufferView} {m : Memory} {p : Packet} {q : List Packet}
    (h : Holds v m (p ∷ q)) where
  abbrev cap : ℕ
  cap = v.m_capacity

  abbrev read : ℕ
  read = m.read_offset

  abbrev size : ℕ
  size = length p.payload

  split_queue :
      (window cap m.bytes read (4 + size) ≡ packet_bytes p)
      × (window cap m.bytes (read + (4 + size)) (used q) ≡ queue_bytes q)
  split_queue =
      append_inj (window cap m.bytes read (4 + size)) (packet_bytes p)
        (window cap m.bytes (read + (4 + size)) (used q)) (queue_bytes q)
        (sym (window-append cap m.bytes read (4 + size) (used q)) ∙ h.held)
        (omega (
          arith,
          length-window cap m.bytes read (4 + size),
          length-append (header_bytes (header_of p)) p.payload,
          length-header_bytes (header_of p),
        ))

  split_packet :
      (window cap m.bytes read 4 ≡ header_bytes (header_of p))
      × (window cap m.bytes (read + 4) size ≡ p.payload)
  split_packet =
      append_inj (window cap m.bytes read 4) (header_bytes (header_of p))
        (window cap m.bytes (read + 4) size) p.payload
        (sym (window-append cap m.bytes read 4 size) ∙ split_queue.0)
        (omega (arith, length-window cap m.bytes read 4, length-header_bytes (header_of p)))

  rest_window : window cap m.bytes (read + 4 + size) (used q) ≡ queue_bytes q
  rest_window = ap (λ t. window cap m.bytes t (used q)) (omega arith) ∙ split_queue.1

  read_header : header_of_bytes (read_wrapped cap read 4 m.bytes) ≡ header_of p
  read_header =
      ap header_of_bytes (
        read_wrapped-window cap read 4 m.bytes h.read_in (omega (arith, h.room))
          (omega (arith, h.small, h.read_in)) (omega (arith, h.small))
        ∙ split_packet.0)
      ∙ header_of_bytes-header_bytes (header_of p) h.packets.0.id_fits h.packets.0.size_fits

  read_payload : read_wrapped cap ((read + 4) % cap) size m.bytes ≡ p.payload
  read_payload =
      read_wrapped-window cap ((read + 4) % cap) size m.bytes (omega (arith, h.read_in))
        (omega (arith, h.room)) (omega (arith, h.small, h.read_in, h.packets.0.size_fits))
        (omega (arith, h.small))
      ∙ window-mod cap m.bytes (read + 4) size
      ∙ split_packet.1

  apart : read ≢ m.write_offset
  apart e =
      mod-ne cap read (used (p ∷ q)) (omega arith) h.room (mod-eq_of_lt h.read_in ∙ e ∙ h.write_at)

  not_empty : (read == m.write_offset) ≡ false
  not_empty = ground (arith, apart)

  popped-Holds : Holds v (record m { read_offset = (read + 4 + size) % cap }) q
  popped-Holds = record {
    fits = h.fits;
    small = h.small;
    read_in = omega (arith, h.read_in);
    room = omega (arith, h.room);
    write_at =
        h.write_at
        ∙ ap (λ t. t % cap) {y = read + 4 + size + used q} (omega arith)
        ∙ sym (mod-add-mod (read + 4 + size) cap (used q));
    held = window-mod cap m.bytes (read + 4 + size) (used q) ∙ rest_window;
    packets = h.packets.1;
  }

-- The copy is skipped for an empty payload, where it would change nothing.
payload_or_skip :
    (payload buffer : Bytes)
    → (if ltb 0 (length payload) then payload ++ drop (length payload) buffer else buffer)
      ≡ payload ++ drop (length payload) buffer
payload_or_skip [] buffer = refl
payload_or_skip (x ∷ xs) buffer = ground arith

-- On a memory that holds the packets `q`, `pop` gives the result, header and buffer of the queue's
-- pop and leaves the memory holding the queue that the pop leaves.
pub pop_refines :
    {v : RingBufferView} {m : Memory} (q : List Packet) (header : PacketHeader) (buffer : Bytes)
    → Holds v m q
    → let r = pop v header buffer m in
      let s = Queue.pop q header buffer in
      (r.result ≡ s.result)
      × (r.header ≡ s.header)
      × (r.buffer ≡ s.buffer)
      × Holds v r.memory s.queue
unfolding pop Queue.pop
pop_refines {v} {m} [] header buffer h = rw same (refl, refl, refl, h)
  where
    same : (m.read_offset == m.write_offset) ≡ true
    same = ground (
      arith,
      h.write_at
          ∙ ap (λ t. t % v.m_capacity) {y = m.read_offset} (omega arith)
          ∙ mod-eq_of_lt h.read_in,
    )
pop_refines {v} {m} (p ∷ q) header buffer h =
    rw (not_empty h, read_header h, read_payload h)
      (elim (Bool-cases (ltb (length buffer) (length p.payload))) [
        | inl short ↦ rw short (refl, refl, refl, h)
        | inr fits ↦ rw fits (refl, refl, payload_or_skip p.payload buffer, popped-Holds h)
      ])
