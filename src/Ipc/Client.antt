-- ===== src/Ipc/Client.antt =====
-- Src/IACore/imp/cpp/IPC.cpp: what an `IpcNode` does once it is connected. Calls are recorded in
-- their order. That `update` does not return is in Client/Stuck.
pub mod Stuck
mod Tests
use iacore.Base.{
  ℕ, Bool, true, false, not, Option, none, some, List, [], ◌∷◌, ◌++◌, Bytes, map, if◌then◌else◌,
}
use iacore.RingBuffer.{Memory, PacketHeader, is_valid}
use iacore.Ipc.Drain.{Drained, drain}
use iacore.Ipc.Node.{IpcNode}
use iacore.Ipc.Manager.{Received, signal, closed, would_block, failed}

pub data NodeEffect : Type 0 where
  on_packet : (packet_id : ℕ) → Bytes → NodeEffect
  on_signal : (value : ℕ) → NodeEffect
  sent : (socket value : ℕ) → NodeEffect
  closed_socket : Option ℕ → NodeEffect
  unlinked : (name : Bytes) → NodeEffect
  exited : NodeEffect

-- What follows the byte that `recv` gives or does not give.
pub after_recv : Received → IpcNode → List NodeEffect
after_recv (signal value) node = on_signal value ∷ []
after_recv would_block node = []
after_recv closed node = closed_socket node.m_socket ∷ unlinked node.m_shm_name ∷ exited ∷ []
after_recv failed node = closed_socket node.m_socket ∷ unlinked node.m_shm_name ∷ exited ∷ []

-- `update`, with at most `rounds` rounds of the loop over the ring; `none` if that is not over.
pub update_node : ℕ → Received → PacketHeader → IpcNode → Memory → Option (List NodeEffect)
unfolding after_recv
update_node rounds received header node moni =
    let drained = drain rounds node.m_moni.view header node.m_receive_buffer moni in
    if not (is_valid node.m_moni.view)
    then some []
    else if drained.is_over
    then some (map (λ c. on_packet c.0 c.1) drained.calls ++ after_recv received node)
    else none

pub send_signal_of : ℕ → IpcNode → List NodeEffect
send_signal_of value node = to_socket node.m_socket
  where
    to_socket : Option ℕ → List NodeEffect
    to_socket none = []
    to_socket (some socket) = sent socket value ∷ []

-- The destructor.
pub destroy_node : IpcNode → List NodeEffect
destroy_node node = close_socket node.m_socket
  where
    close_socket : Option ℕ → List NodeEffect
    close_socket none = []
    close_socket (some socket) = closed_socket (some socket) ∷ []
