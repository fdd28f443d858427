-- ===== src/Ipc/Manager/Tests.antt =====
-- IPC.cpp: the theorems on a manager with one session, whose ring has 16 bytes.
use iacore.Base.{
  ℕ, ◌≡◌, refl, true, false, none, some, ◌⊎◌, [], ◌∷◌, ◌++◌, replicate, length-replicate, codes,
  arith,
}
use iacore.RingBuffer.{Memory, RingBufferView}
use iacore.RingBuffer.Packets.{Holds}
use iacore.Ipc.Manager.{
  NodeSession, IpcManager, World, closed, would_block, promoted, visit_pending, accepted,
  pending_loop, visit_all_pending, update, map_insert, node_session, unknown_node, done, destroy,
}
use iacore.Ipc.Manager.Backed
use iacore.Ipc.Manager.Backed.{turn, node_session-Reachable, stale-turn}
use iacore.Ipc.Manager.Released
use iacore.Ipc.Manager.Released.{total, gone, only, nothing, held, Life-destroy}
use iacore.Ipc.Manager.Stuck.{update_stuck}

abbrev view : RingBufferView
view = record { m_data_ptr = true; m_capacity = 16; m_control_block = true }

abbrev empty_memory : Memory
empty_memory = record { write_offset = 0; read_offset = 0; capacity = 16; bytes = replicate 16 0 }

abbrev waiting : NodeSession
waiting = record {
  key = 100;
  creation_time = 10;
  shared_mem_name = codes "ia_shm_1";
  mapped_ptr = 4096;
  listener_socket = some 5;
  data_socket = none;
  moni = record { view = view; control_at = 4160; data_at = 4480 };
  mino = record { view = view; control_at = 4288; data_at = 4496 };
  moni_memory = empty_memory;
  mino_memory = empty_memory;
  is_ready = false;
}

abbrev connected : NodeSession
connected = record waiting { data_socket = some 6; is_ready = true; listener_socket = none }

-- The process with the identifier 77 runs, or is over.
abbrev id : ℕ → ℕ
id key = 77

abbrev world : World
world = record { now = 12; id_of = id; accept = λ s. some 6; recv = λ s. would_block }

abbrev world_after : World
world_after = record { now = 12; id_of = λ key. 0; accept = λ s. none; recv = λ s. closed }

abbrev pending_manager : IpcManager
pending_manager = record {
  m_active_sessions = [];
  m_pending_sessions = waiting ∷ [];
  m_active_session_map = [];
}

abbrev active_manager : IpcManager
active_manager = record {
  m_active_sessions = connected ∷ [];
  m_pending_sessions = [];
  m_active_session_map = (77, 100) ∷ [];
}

connects-active : (visit_all_pending world pending_manager).0 ≡ active_manager
unfolding visit_all_pending pending_loop visit_pending accepted promoted map_insert
connects-active = refl

Reachable-active : Backed.Reachable id (visit_all_pending world pending_manager).0
Reachable-active =
    Backed.next (Backed.next Backed.start (Backed.spawns waiting)) (Backed.connects world refl)

node_session-Reachable_example :
    (node_session 77 (visit_all_pending world pending_manager).0 ≡ unknown_node)
    ⊎ ((s : NodeSession) × (node_session 77 (visit_all_pending world pending_manager).0 ≡ done s)
        × (id s.key ≡ 77))
node_session-Reachable_example = node_session-Reachable id 77 Reachable-active

Life-active :
    Released.Life
      (visit_all_pending world pending_manager).0
      (waiting ∷ [])
      ([] ++ (visit_all_pending world pending_manager).1)
unfolding held total
Life-active = Released.connects (Released.spawns Released.start waiting refl) world

Life-destroy_example :
    (gone (only 100) nothing (
        ([] ++ (visit_all_pending world pending_manager).1)
        ++ destroy (visit_all_pending world pending_manager).0)
      ≡ total (only 100) nothing (waiting ∷ []))
    × (gone nothing (only 4096) (
          ([] ++ (visit_all_pending world pending_manager).1)
          ++ destroy (visit_all_pending world pending_manager).0)
        ≡ total nothing (only 4096) (waiting ∷ []))
Life-destroy_example = Life-destroy 100 4096 Life-active

empty-Holds : Holds view empty_memory []
empty-Holds = record {
  fits = omega arith;
  small = omega arith;
  read_in = omega arith;
  room = omega arith;
  write_at = refl;
  held = refl;
  packets = tt;
}

update_stuck_example :
    update 100000 world world
      (record { id = 0; payload_size = 0 })
      (replicate 65536 0)
      pending_manager
    ≡ none
unfolding visit_all_pending pending_loop visit_pending accepted promoted
update_stuck_example =
    update_stuck 100000 world world (record { id = 0; payload_size = 0 }) (replicate 65536 0)
      pending_manager [] connected [] refl empty-Holds
      (omega (arith, length-replicate {A = ℕ} 65536 0))
