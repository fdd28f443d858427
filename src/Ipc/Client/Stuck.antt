-- ===== src/Ipc/Client/Stuck.antt =====
-- IPC.cpp: `IpcNode::update` does not return once the node is connected.
use iacore.Base.{ℕ, ◌≤◌, ◌≡◌, refl, true, none, List, length}
use iacore.RingBuffer.{Memory, PacketHeader, is_valid}
use iacore.RingBuffer.Packets.{Holds}
use iacore.RingBuffer.Queue.{Packet}
use iacore.Ipc.Drain.Rounds.{drain-not_over}
use iacore.Ipc.Node.{IpcNode}
use iacore.Ipc.Manager.{Received}
use iacore.Ipc.Client.{update_node}

-- A node whose ring is valid and holds packets or none, to which nobody pushes meanwhile, and whose buffer has at
-- least 65536 bytes, does not return from `update`, whatever its socket would give.
pub update_node_stuck :
    (rounds : ℕ) (received : Received) (header : PacketHeader) (node : IpcNode) (moni : Memory)
    (q : List Packet)
    → is_valid node.m_moni.view ≡ true
    → Holds node.m_moni.view moni q
    → 65536 ≤ length node.m_receive_buffer
    → update_node rounds received header node moni ≡ none
unfolding update_node
update_node_stuck rounds received header node moni q valid h room =
    rw (valid, drain-not_over rounds q header node.m_receive_buffer h room) refl
