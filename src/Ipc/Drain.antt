-- ===== src/Ipc/Drain.antt =====
-- Src/IACore/imp/cpp/IPC.cpp: the loop of `IpcNode::update` and of `IpcManager::update` that takes
-- packets from a ring and hands them to `on_packet`. Its condition is the `Result` that `pop`
-- returns, which is true when it holds a value. The other process pushes nothing meanwhile. The laws
-- are in Drain/Rounds.
pub mod Rounds
mod Tests
use iacore.Base.{
  ℕ, zero, suc, Bool, true, false, Option, none, some, List, [], ◌∷◌, Bytes, take, if◌then◌else◌,
  has_value,
}
use iacore.RingBuffer.{Memory, PacketHeader, RingBufferView, pop, Popped}

-- What the loop has done after a number of rounds: the calls of `on_packet`, and whether it is over.
pub record Drained : Type 0 where
  pub calls : List (ℕ × Bytes)
  pub is_over : Bool

-- At most `rounds` rounds of the loop.
pub drain : ℕ → RingBufferView → PacketHeader → Bytes → Memory → Drained
drain zero v header buffer m = record { calls = []; is_over = false }
drain (suc rounds) v header buffer m =
    let p = pop v header buffer m in
    let later = drain rounds v p.header p.buffer p.memory in
    if has_value p.result
    then record {
      calls = (p.header.id, take p.header.payload_size p.buffer) ∷ later.calls;
      is_over = later.is_over;
    }
    else record { calls = []; is_over = true }
