-- ===== src/Ipc/Manager/Stuck.antt =====
-- IPC.cpp: `IpcManager::update` does not return once a node is connected.
use mathlib.Core.Path.{subst}
use iacore.Base.{
  ℕ, zero, suc, ◌≤◌, ◌<◌, ◌≡◌, refl, ap, ◌∙◌, Option, none, some, List, [], ◌∷◌, ◌++◌, Bytes,
  length, drop, length-append, length-drop, arith, ok,
}
use iacore.RingBuffer.{Memory, PacketHeader, RingBufferView, pop}
use iacore.RingBuffer.Queue
use iacore.RingBuffer.Queue.{Packet}
use iacore.RingBuffer.Packets.{Holds}
use iacore.RingBuffer.Pop.{pop_refines}
use iacore.Ipc.Drain.Rounds.{queue_pop}
use iacore.Ipc.Manager.{
  NodeSession, IpcManager, World, empty_ring, active_loop, update, visit_all_pending,
}

-- A `pop` of a ring that holds packets or none returns a value, and leaves a ring that holds packets or none and a buffer that is as large.
pub record Pops (v : RingBufferView) (header : PacketHeader) (buffer : Bytes) (m : Memory)
    : Type 0 where
  number : Option ℕ
  returns : (pop v header buffer m).result ≡ ok number
  queue : List Packet
  holds : Holds v (pop v header buffer m).memory queue
  room : 65536 ≤ length (pop v header buffer m).buffer

queue_Pops :
    (v : RingBufferView) (m : Memory) (q : List Packet) (header : PacketHeader) (buffer : Bytes)
    → Holds v m q
    → 65536 ≤ length buffer
    → Pops v header buffer m
unfolding Queue.pop
queue_Pops v m [] header buffer h room =
    let (same, same_header, same_buffer, after) = pop_refines [] header buffer h in
    record { number = none; returns = same; queue = []; holds = after; room = rw same_buffer room }
queue_Pops v m (p ∷ q) header buffer h room =
    let (same, same_header, same_buffer, after) = pop_refines (p ∷ q) header buffer h in
    let short : length p.payload < 65536 = h.packets.0.size_fits in
    let took = queue_pop p q header buffer (ground arith) in
    record {
      number = some (length p.payload);
      returns = same ∙ ap (λ r. r.result) took;
      queue = q;
      holds = subst (λ r. Holds v (pop v header buffer m).memory r.queue) took after;
      room = omega (
        arith,
        ap length same_buffer,
        ap (λ r. length r.buffer) took,
        length-append p.payload (drop (length p.payload) buffer),
        length-drop (length p.payload) buffer,
      );
    }

-- A ring is never emptied.
empty_ring_stuck :
    (fuel node : ℕ) (v : RingBufferView) (m : Memory) (q : List Packet) (header : PacketHeader)
    (buffer : Bytes)
    → Holds v m q
    → 65536 ≤ length buffer
    → empty_ring fuel node v header buffer m ≡ none
unfolding empty_ring
empty_ring_stuck zero node v m q header buffer h room = refl
empty_ring_stuck (suc fuel) node v m q header buffer h room =
    let r = queue_Pops v m q header buffer h room in
    let p = pop v header buffer m in
    rw (r.returns, empty_ring_stuck fuel node v p.memory r.queue p.header p.buffer r.holds r.room)
      refl

active_loop_stuck :
    (fuel : ℕ) (w : World) (header : PacketHeader) (before : List NodeSession) (s : NodeSession)
    (q : List Packet) (m : IpcManager) (buffer : Bytes)
    → Holds s.mino.view s.mino_memory q
    → 65536 ≤ length buffer
    → active_loop fuel w header (before ++ s ∷ []) m buffer ≡ none
unfolding active_loop
active_loop_stuck fuel w header [] s q m buffer h room =
    rw (empty_ring_stuck fuel (w.id_of s.key) s.mino.view s.mino_memory q header buffer h room) refl
active_loop_stuck fuel w header (b ∷ before) s q m buffer h room =
    rw (active_loop_stuck fuel w header before s q m buffer h room) refl

-- When the first loop leaves an active session, the last one's ring holds packets or none, and no node pushes
-- meanwhile, `update` does not return, with the buffer of 65536 bytes or a larger one: the loop over that ring is not
-- over within any number of rounds.
pub update_stuck :
    (fuel : ℕ) (pending_world active_world : World) (header : PacketHeader) (buffer : Bytes)
    (m : IpcManager) (before : List NodeSession) (s : NodeSession) (q : List Packet)
    → (visit_all_pending pending_world m).0.m_active_sessions ≡ before ++ s ∷ []
    → Holds s.mino.view s.mino_memory q
    → 65536 ≤ length buffer
    → update fuel pending_world active_world header buffer m ≡ none
unfolding update
update_stuck fuel pending_world active_world header buffer m before s q active h room =
    let rest = record (visit_all_pending pending_world m).0 { m_active_sessions = [] } in
    let stuck : active_loop fuel active_world header
          (visit_all_pending pending_world m).0.m_active_sessions rest buffer
        ≡ none =
      ap (λ l. active_loop fuel active_world header l rest buffer) active
      ∙ active_loop_stuck fuel active_world header before s q rest buffer h room in
    rw stuck refl
