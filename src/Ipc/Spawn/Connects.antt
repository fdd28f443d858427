-- ===== src/Ipc/Spawn/Connects.antt =====
-- IPC.cpp: a node that is started gets the rings of its manager.
use iacore.Base.{
  ℕ, ◌+◌, ◌≤◌, ◌<◌, ◌^◌, ◌≡◌, refl, ap, ◌∙◌, true, false, some, [], ◌∷◌, ◌++◌, Bytes, length, take,
  replicate, ◌-◌, length-append, length-take, length-replicate, ok, arith,
}
use iacore.RingBuffer.{Memory, RingBufferView, create}
use iacore.RingBuffer.Packets.{Holds}
use iacore.RingBuffer.Runs.{create-Holds}
use iacore.ProcessOps.{split_arguments}
use iacore.Ipc.Descriptor.{IpcConnectionDescriptor, session_descriptor}
use iacore.Ipc.Descriptor.RoundTrip.{first_argument, first_argument-session_args}
use iacore.Ipc.Layout.{moni_control_offset, mino_control_offset, divide}
use iacore.Ipc.Node.{
  PlacedView, placed, IpcNode, new_node, ConnectWorld, connect_rings, connect_mapped,
  connect_socket, connect_parsed, with_receive_buffer,
}
use iacore.Ipc.Manager.{NodeSession, IpcManager}
use iacore.Ipc.Spawn.{
  SpawnWorld, both_rings, make_rings, new_session, spawn_process, spawn_rings, spawn_mapped,
  spawn_socket, spawn_node, spawn_args, next_sid,
}

-- Every request of `spawn_node` is granted, and the shared memory has room for both rings.
pub record IsGranted (w : SpawnWorld) (size socket ptr key : ℕ) : Type 0 where
  pub made : w.unix_socket ≡ some socket
  pub bound : w.bound ≡ true
  pub listening : w.listening ≡ true
  pub mapped : w.mapped ≡ some ptr
  pub started : w.process ≡ some key
  pub active : w.active ≡ true
  pub moni_fits : (divide size).moni_data_size ≤ length w.moni_memory.bytes
  pub mino_fits : (divide size).mino_data_size ≤ length w.mino_memory.bytes

length-with_receive_buffer :
    (node : IpcNode) → length (with_receive_buffer node).m_receive_buffer ≡ 65536
unfolding with_receive_buffer
length-with_receive_buffer node =
    let old = node.m_receive_buffer in
    let filler : Bytes = replicate (65536 - length old) 0 in
    omega (
      arith,
      length-append (take 65536 old) filler,
      length-take 65536 old,
      length-replicate {A = ℕ} (65536 - length old) 0,
    )

-- The node that has connected, before its buffer is made and after.
abbrev bare_node : IpcConnectionDescriptor → (socket ptr : ℕ) → PlacedView → PlacedView → IpcNode
bare_node d socket ptr moni mino = record {
  m_shm_name = d.shared_mem_path;
  m_shared_memory = some ptr;
  m_receive_buffer = [];
  m_socket = some socket;
  m_moni = moni;
  m_mino = mino;
}

connected_node : IpcConnectionDescriptor → (socket ptr : ℕ) → PlacedView → PlacedView → IpcNode
connected_node d socket ptr moni mino = with_receive_buffer (bare_node d socket ptr moni mino)

connected_node_lem :
    (d : IpcConnectionDescriptor) (socket ptr : ℕ) (moni mino : PlacedView)
    → let node = connected_node d socket ptr moni mino in
      (node.m_moni ≡ moni) × (node.m_mino ≡ mino) × (length node.m_receive_buffer ≡ 65536)
unfolding connected_node with_receive_buffer
connected_node_lem d socket ptr moni mino =
    (refl, refl, length-with_receive_buffer (bare_node d socket ptr moni mino))

-- The two rings' views in a shared memory of this size that is mapped at `ptr`: each has its own control block and its
-- own part of the data.
abbrev pub moni_view : (ptr size : ℕ) → RingBufferView → PlacedView
moni_view ptr size view = record {
  view = view;
  control_at = ptr + moni_control_offset;
  data_at = ptr + (divide size).moni_data_offset;
}

abbrev pub mino_view : (ptr size : ℕ) → RingBufferView → PlacedView
mino_view ptr size view = record {
  view = view;
  control_at = ptr + mino_control_offset;
  data_at = ptr + (divide size).mino_data_offset;
}

node_connects :
    (d : IpcConnectionDescriptor) (cw : ConnectWorld) (size socket ptr : ℕ)
    (moni mino : RingBufferView) (moni_memory mino_memory : Memory)
    → cw.unix_socket ≡ some socket
    → cw.connected ≡ true
    → cw.mapped ≡ some ptr
    → create true (divide size).moni_data_size false moni_memory ≡ ok (moni, moni_memory)
    → create true (divide size).mino_data_size false mino_memory ≡ ok (mino, mino_memory)
    → connect_parsed
        (some d)
        cw
        (record { layout = divide size; moni = moni_memory; mino = mino_memory })
        new_node
      ≡ (ok tt, connected_node d socket ptr (moni_view ptr size moni) (mino_view ptr size mino))
unfolding connect_parsed connect_socket connect_mapped connect_rings placed divide connected_node
node_connects d cw size socket ptr moni mino moni_memory mino_memory made connected mapped moni_seen
      mino_seen =
    simp (made, connected, mapped, moni_seen, mino_seen)

-- Every request of `connect` is granted.
pub record IsAnswered (cw : ConnectWorld) (node_socket node_ptr : ℕ) : Type 0 where
  pub made : cw.unix_socket ≡ some node_socket
  pub connected : cw.connected ≡ true
  pub mapped : cw.mapped ≡ some node_ptr

-- A session whose rings are empty, and a node that has connected and looks at the same rings: its views are those of the
-- session, and lie in its own mapping where the session's lie in that of the manager.
pub record IsConnected (w : SpawnWorld) (size socket ptr key : ℕ) (m : IpcManager)
    (cw : ConnectWorld) (node_ptr : ℕ) : Type 0 where
  pub session : NodeSession
  pub added :
      (spawn_node w size m).manager
      ≡ record m { m_pending_sessions = m.m_pending_sessions ++ session ∷ [] }
  pub returns : (spawn_node w size m).result ≡ ok w.process_id
  pub owns :
      (session.key ≡ key) × (session.mapped_ptr ≡ ptr) × (session.listener_socket ≡ some socket)
  pub moni_empty : Holds session.moni.view session.moni_memory []
  pub mino_empty : Holds session.mino.view session.mino_memory []
  pub node : IpcNode
  pub connects :
      connect_parsed
        (first_argument (split_arguments (spawn_args w size)))
        cw
        (record { layout = divide size; moni = session.moni_memory; mino = session.mino_memory })
        new_node
      ≡ (ok tt, node)
  pub session_rings :
      (session.moni ≡ moni_view ptr size session.moni.view)
      × (session.mino ≡ mino_view ptr size session.mino.view)
  pub same_rings :
      (node.m_moni ≡ moni_view node_ptr size session.moni.view)
      × (node.m_mino ≡ mino_view node_ptr size session.mino.view)
  pub room : length node.m_receive_buffer ≡ 65536

-- The same with the two rings that `create` makes.
module _ (w : SpawnWorld) (size socket ptr key : ℕ) (m : IpcManager) (small : size < 2 ^ 32)
    (g : IsGranted w size socket ptr key) (cw : ConnectWorld) (node_socket node_ptr : ℕ)
    (n : IsAnswered cw node_socket node_ptr) where
  rings-IsConnected :
      (moni mino : RingBufferView) (moni_memory mino_memory : Memory)
      → create true (divide size).moni_data_size true w.moni_memory ≡ ok (moni, moni_memory)
      → create true (divide size).mino_data_size true w.mino_memory ≡ ok (mino, mino_memory)
      → Holds moni moni_memory []
      → Holds mino mino_memory []
      → create true (divide size).moni_data_size false moni_memory ≡ ok (moni, moni_memory)
      → create true (divide size).mino_data_size false mino_memory ≡ ok (mino, mino_memory)
      → IsConnected w size socket ptr key m cw node_ptr
  unfolding spawn_node spawn_socket spawn_mapped spawn_rings make_rings both_rings placed
      spawn_process new_session spawn_args divide
  rings-IsConnected moni mino moni_memory mino_memory moni_made mino_made moni_holds mino_holds
        moni_seen mino_seen =
      let d = session_descriptor (next_sid w) size in
      let views =
        connected_node_lem d node_socket node_ptr (moni_view node_ptr size moni)
          (mino_view node_ptr size mino) in
      record {
        session =
            new_session w socket ptr key
              ((moni_view ptr size moni, moni_memory), (mino_view ptr size mino, mino_memory));
        added =
            simp
              (g.made, g.bound, g.listening, g.mapped, g.started, g.active, moni_made, mino_made);
        returns =
            simp
              (g.made, g.bound, g.listening, g.mapped, g.started, g.active, moni_made, mino_made);
        owns = (refl, refl, refl);
        moni_empty = moni_holds;
        mino_empty = mino_holds;
        node =
            connected_node d node_socket node_ptr (moni_view node_ptr size moni)
              (mino_view node_ptr size mino);
        connects =
            ap
              (λ e.
                connect_parsed e cw
                  (record { layout = divide size; moni = moni_memory; mino = mino_memory })
                  new_node)
              (first_argument-session_args (next_sid w) size small)
            ∙ node_connects d cw size node_socket node_ptr moni mino moni_memory mino_memory n.made
                n.connected n.mapped moni_seen mino_seen;
        session_rings = (refl, refl);
        same_rings = (views.0, views.1);
        room = views.2;
      }

-- When the operating system grants every request, and the shared memory has at least 512 bytes and a size that is a
-- `u32`, `spawn_node` returns the process's identifier and adds a session whose two rings are empty; and the node that
-- reads its session from its argument text and whose requests are granted connects, with a buffer of 65536 bytes and the
-- same two rings: each of its two views is the session's view of the same name, with its control block and its data at
-- the same offsets of the memory, which each process maps at an address of its own.
pub spawn_node-connect :
    (w : SpawnWorld) (size socket ptr key : ℕ) (m : IpcManager) (cw : ConnectWorld)
    (node_socket node_ptr : ℕ)
    → 512 ≤ size
    → size < 2 ^ 32
    → IsGranted w size socket ptr key
    → IsAnswered cw node_socket node_ptr
    → IsConnected w size socket ptr key m cw node_ptr
unfolding divide
spawn_node-connect w size socket ptr key m cw node_socket node_ptr large small g n =
    let l = divide size in
    let (moni, moni_memory, moni_made, moni_cap, moni_holds, moni_seen) =
      create-Holds l.moni_data_size w.moni_memory (omega arith) (omega arith) g.moni_fits in
    let (mino, mino_memory, mino_made, mino_cap, mino_holds, mino_seen) =
      create-Holds l.mino_data_size w.mino_memory (omega arith) (omega arith) g.mino_fits in
    rings-IsConnected w size socket ptr key m small g cw node_socket node_ptr n moni mino
      moni_memory mino_memory moni_made mino_made moni_holds mino_holds moni_seen mino_seen
