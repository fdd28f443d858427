-- ===== src/Ipc/Node.antt =====
-- Src/IACore/imp/cpp/IPC.cpp: IpcNode, the side of the child process. What the operating system
-- answers is the argument `ConnectWorld`; the shared memory is a state with the layout's fields and
-- the two rings, and a view of a ring has the addresses of its control block and of its data. The laws are in Spawn/Connects.
use iacore.Base.{
  ℕ, ◌+◌, ◌-◌, Bool, true, false, not, Option, none, some, [], ◌++◌, Bytes, length, take, replicate,
  ◌==◌, if◌then◌else◌, Result, ok, err,
}
use iacore.RingBuffer.{Memory, RingBufferView, RingError, default_instance, create, is_valid, push}
use iacore.Ipc.Layout.{SharedMemoryLayout, moni_control_offset, mino_control_offset}
use iacore.Ipc.Descriptor.{IpcConnectionDescriptor, deserialize}

pub data IpcError : Type 0 where
  parse_failed socket_failed bind_failed listen_failed connect_failed map_failed : IpcError
  invalid_signature version_mismatch : IpcError
  ring_failed : RingError → IpcError
  process_failed not_active invalid_ring no_such_node : IpcError

-- `IpcSharedMemoryLayout` with the data behind it.
pub record SharedMemory : Type 0 where
  pub layout : SharedMemoryLayout
  pub moni : Memory
  pub mino : Memory

-- A `RingBufferView` of the shared memory, with the two pointers that it was made of.
pub record PlacedView : Type 0 where
  pub view : RingBufferView
  pub control_at : ℕ
  pub data_at : ℕ

-- `RingBufferView::create` over a control block and data at these addresses.
unfoldable pub placed :
    (control_at data_at : ℕ)
    → Result RingError (RingBufferView × Memory)
    → Result RingError (PlacedView × Memory)
placed control_at data_at (err e) = err e
placed control_at data_at (ok made) =
    ok (record { view = made.0; control_at = control_at; data_at = data_at }, made.1)

pub record IpcNode : Type 0 where
  pub m_shm_name : Bytes
  pub m_shared_memory : Option ℕ
  pub m_receive_buffer : Bytes
  pub m_socket : Option ℕ
  pub m_moni : PlacedView
  pub m_mino : PlacedView

abbrev pub new_node : IpcNode
new_node = record {
  m_shm_name = [];
  m_shared_memory = none;
  m_receive_buffer = [];
  m_socket = none;
  m_moni = record { view = default_instance; control_at = 0; data_at = 0 };
  m_mino = record { view = default_instance; control_at = 0; data_at = 0 };
}

-- The answers of `create_unix_socket`, `connect_unix_socket` and `map_shared_memory`.
pub record ConnectWorld : Type 0 where
  pub unix_socket : Option ℕ
  pub connected : Bool
  pub mapped : Option ℕ

-- `m_receive_buffer.resize(UINT16_MAX + 1)`
unfoldable pub with_receive_buffer : IpcNode → IpcNode
with_receive_buffer node = record node {
  m_receive_buffer =
      take 65536 node.m_receive_buffer ++ replicate (65536 - length node.m_receive_buffer) 0;
}

unfoldable pub connect_rings :
    Result RingError (PlacedView × Memory)
    → Result RingError (PlacedView × Memory)
    → IpcNode
    → Result IpcError (Unit {0}) × IpcNode
unfolding with_receive_buffer
connect_rings (err e) mino node = (err (ring_failed e), node)
connect_rings (ok moni) (err e) node = (err (ring_failed e), record node { m_moni = moni.0 })
connect_rings (ok moni) (ok mino) node =
    (ok tt, with_receive_buffer (record node { m_moni = moni.0; m_mino = mino.0 }))

unfoldable pub connect_mapped :
    Option ℕ → SharedMemory → IpcNode → Result IpcError (Unit {0}) × IpcNode
unfolding connect_rings placed
connect_mapped none shm node = (err map_failed, node)
connect_mapped (some ptr) shm node =
    let mapped = record node { m_shared_memory = some ptr } in
    if not (shm.layout.magic == 0x49414950)
    then (err invalid_signature, mapped)
    else if not (shm.layout.version == 1)
    then (err version_mismatch, mapped)
    else let moni_ptr = ptr + shm.layout.moni_data_offset in
      let mino_ptr = ptr + shm.layout.mino_data_offset in
      connect_rings
        (placed (ptr + moni_control_offset) moni_ptr
          (create true shm.layout.moni_data_size false shm.moni))
        (placed (ptr + mino_control_offset) mino_ptr
          (create true shm.layout.mino_data_size false shm.mino))
        mapped

unfoldable pub connect_socket :
    Option ℕ → ConnectWorld → SharedMemory → IpcNode → Result IpcError (Unit {0}) × IpcNode
unfolding connect_mapped
connect_socket none w shm node = (err socket_failed, node)
connect_socket (some s) w shm node =
    let with_socket = record node { m_socket = some s } in
    if not w.connected
    then (err connect_failed, with_socket)
    else connect_mapped w.mapped shm with_socket

unfoldable pub connect_parsed :
    Option IpcConnectionDescriptor
    → ConnectWorld
    → SharedMemory
    → IpcNode
    → Result IpcError (Unit {0}) × IpcNode
unfolding connect_socket
connect_parsed none w shm node = (err parse_failed, node)
connect_parsed (some desc) w shm node =
    connect_socket w.unix_socket w shm (record node { m_shm_name = desc.shared_mem_path })

pub connect : Bytes → ConnectWorld → SharedMemory → IpcNode → Result IpcError (Unit {0}) × IpcNode
unfolding connect_parsed
connect connection_string w shm node = connect_parsed (deserialize connection_string) w shm node

-- `send_packet` of a node: its result, and the memory of its outgoing ring.
pub send_packet : IpcNode → ℕ → Bytes → Memory → Result IpcError (Unit {0}) × Memory
send_packet node packet_id payload mino =
    let pushed = push node.m_mino.view packet_id payload mino in
    if not (is_valid node.m_mino.view)
    then (err invalid_ring, mino)
    else (ring_result pushed.0, pushed.1)
  where
    ring_result : Result RingError (Unit {0}) → Result IpcError (Unit {0})
    ring_result (ok u) = ok u
    ring_result (err e) = err (ring_failed e)
