-- ===== src/Ipc/Spawn.antt =====
-- Src/IACore/imp/cpp/IPC.cpp: `IpcManager::spawn_node`, on a Unix system. What the operating system
-- answers is the argument `SpawnWorld`. What the call acquires is listed, so that what a failure
-- leaves behind is seen. The laws are in Spawn/Connects (the node that is started gets the same
-- rings) and Spawn/Failures.
pub mod Connects
pub mod Failures
mod Tests
use iacore.Base.{
  ℕ, ◌+◌, ◌%◌, Bool, true, false, not, Option, none, some, List, [], ◌∷◌, ◌++◌, Bytes,
  if◌then◌else◌, Result, ok, err, codes, format_u32,
}
use iacore.RingBuffer.{Memory, RingBufferView, RingError, create, default_instance, u32_mod}
use iacore.Ipc.Descriptor.{session_descriptor, session_args}
use iacore.Ipc.Layout.{SharedMemoryLayout, moni_control_offset, mino_control_offset, divide}
use iacore.Ipc.Node.{
  PlacedView, placed, IpcError, socket_failed, bind_failed, listen_failed, map_failed, ring_failed,
  process_failed, not_active,
}
use iacore.Ipc.Manager.{NodeSession, IpcManager}

-- The answers of `create_unix_socket`, `bind_unix_socket`, `listen`, `map_shared_memory` (its pointer
-- and the bytes of the two rings), `spawn_process_async` (the session's key), `is_active` and the
-- clock, and the identifier of the process. `s_id_gen` is the counter before the call.
pub record SpawnWorld : Type 0 where
  pub s_id_gen : ℕ
  pub unix_socket : Option ℕ
  pub bound : Bool
  pub listening : Bool
  pub mapped : Option ℕ
  pub moni_memory : Memory
  pub mino_memory : Memory
  pub process : Option ℕ
  pub active : Bool
  pub process_id : ℕ
  pub now : ℕ

pub data Acquired : Type 0 where
  opened_socket : ℕ → Acquired
  mapped_memory : (ptr : ℕ) → Acquired
  started_process : (key : ℕ) → Acquired

pub record Spawned : Type 0 where
  pub result : Result IpcError ℕ
  pub manager : IpcManager
  pub acquired : List Acquired

-- `++s_id_gen`, an atomic `u32`
abbrev pub next_sid : SpawnWorld → ℕ
next_sid w = (w.s_id_gen + 1) % u32_mod

pub Rings : Type 0
Rings = (PlacedView × Memory) × (PlacedView × Memory)

-- The two calls of `create`, over the control blocks and the regions that the layout tells.
pub both_rings :
    Result RingError (PlacedView × Memory)
    → Result RingError (PlacedView × Memory)
    → Result RingError Rings
unfolding Rings
both_rings (err e) mino = err e
both_rings (ok moni) (err e) = err e
both_rings (ok moni) (ok mino) = ok (moni, mino)

pub make_rings : (ptr : ℕ) → SharedMemoryLayout → Memory → Memory → Result RingError Rings
unfolding both_rings placed
make_rings ptr layout moni mino =
    both_rings
      (placed (ptr + moni_control_offset) (ptr + layout.moni_data_offset)
        (create true layout.moni_data_size true moni))
      (placed (ptr + mino_control_offset) (ptr + layout.mino_data_offset)
        (create true layout.mino_data_size true mino))

-- The session that is added.
pub new_session : SpawnWorld → (socket ptr key : ℕ) → Rings → NodeSession
unfolding Rings
new_session w socket ptr key rings = record {
  key = key;
  creation_time = w.now;
  shared_mem_name = codes "ia_shm_" ++ format_u32 (next_sid w);
  mapped_ptr = ptr;
  listener_socket = some socket;
  data_socket = none;
  moni = rings.0.0;
  mino = rings.1.0;
  moni_memory = rings.0.1;
  mino_memory = rings.1.1;
  is_ready = false;
}

pub spawn_process : Option ℕ → SpawnWorld → (socket ptr : ℕ) → Rings → IpcManager → Spawned
unfolding new_session
spawn_process none w socket ptr rings m = record {
  result = err process_failed;
  manager = m;
  acquired = opened_socket socket ∷ mapped_memory ptr ∷ [];
}
spawn_process (some key) w socket ptr rings m =
    let acquired = opened_socket socket ∷ mapped_memory ptr ∷ started_process key ∷ [] in
    if not w.active
    then record { result = err not_active; manager = m; acquired = acquired }
    else record {
      result = ok w.process_id;
      manager = record m {
        m_pending_sessions = m.m_pending_sessions ++ new_session w socket ptr key rings ∷ [];
      };
      acquired = acquired;
    }

pub spawn_rings : Result RingError Rings → SpawnWorld → (socket ptr : ℕ) → IpcManager → Spawned
unfolding spawn_process
spawn_rings (err e) w socket ptr m = record {
  result = err (ring_failed e);
  manager = m;
  acquired = opened_socket socket ∷ mapped_memory ptr ∷ [];
}
spawn_rings (ok rings) w socket ptr m = spawn_process w.process w socket ptr rings m

pub spawn_mapped : Option ℕ → SpawnWorld → ℕ → (socket : ℕ) → IpcManager → Spawned
unfolding spawn_rings
spawn_mapped none w size socket m = record {
  result = err map_failed;
  manager = m;
  acquired = opened_socket socket ∷ [];
}
spawn_mapped (some ptr) w size socket m =
    spawn_rings (make_rings ptr (divide size) w.moni_memory w.mino_memory) w socket ptr m

pub spawn_socket : Option ℕ → SpawnWorld → ℕ → IpcManager → Spawned
unfolding spawn_mapped
spawn_socket none w size m = record { result = err socket_failed; manager = m; acquired = [] }
spawn_socket (some socket) w size m =
    if not w.bound
    then record { result = err bind_failed; manager = m; acquired = opened_socket socket ∷ [] }
    else if not w.listening
    then record { result = err listen_failed; manager = m; acquired = opened_socket socket ∷ [] }
    else spawn_mapped w.mapped w size socket m

pub spawn_node : SpawnWorld → ℕ → IpcManager → Spawned
unfolding spawn_socket
spawn_node w shared_memory_size m = spawn_socket w.unix_socket w shared_memory_size m

-- The argument text that the child gets.
pub spawn_args : SpawnWorld → ℕ → Bytes
spawn_args w shared_memory_size = session_args (session_descriptor (next_sid w) shared_memory_size)
