-- ===== src/Ipc/Manager.antt =====
-- Src/IACore/imp/cpp/IPC.cpp: IpcManager, the side of the process that starts the nodes. A session
-- is an object with an identity (`key`), which stands for its address; its process handle belongs to
-- it and is named by the same number. What the clock, the sockets and the process handles answer is
-- the argument `World`; within one loop each of them is asked once for a session. Calls that release
-- something, send a byte or run a callback are `Effect`s, in their order. The laws are in
-- Manager/Backed, Manager/Released and Manager/Stuck.
pub mod Entries
pub mod Backed
pub mod Released
pub mod Stuck
mod Tests
use iacore.Base.{
  ℕ, zero, suc, ◌+◌, ◌-◌, Bool, true, false, ◌&&◌, not, Option, none, some, List, [], ◌∷◌, ◌++◌,
  Bytes, take, ltb, ◌==◌, if◌then◌else◌, Result, ok, err, has_value,
}
use iacore.RingBuffer.{Memory, PacketHeader, RingBufferView, RingError, is_valid, push, pop, Popped}
use iacore.Ipc.Node.{PlacedView, IpcError, no_such_node, invalid_ring, ring_failed}

pub record NodeSession : Type 0 where
  pub key : ℕ
  pub creation_time : ℕ
  pub shared_mem_name : Bytes
  pub mapped_ptr : ℕ
  pub listener_socket : Option ℕ
  pub data_socket : Option ℕ
  pub moni : PlacedView
  pub mino : PlacedView
  pub moni_memory : Memory
  pub mino_memory : Memory
  pub is_ready : Bool

pub record IpcManager : Type 0 where
  pub m_active_sessions : List NodeSession
  pub m_pending_sessions : List NodeSession
  pub m_active_session_map : List (ℕ × ℕ)

abbrev pub new_manager : IpcManager
new_manager = record { m_active_sessions = []; m_pending_sessions = []; m_active_session_map = [] }

-- What `recv` of one byte returns.
pub data Received : Type 0 where
  signal : ℕ → Received
  closed would_block failed : Received

-- `id_of` is the identifier in a session's process handle, which is 0 when the process is over.
pub record World : Type 0 where
  pub now : ℕ
  pub id_of : ℕ → ℕ
  pub accept : Option ℕ → Option ℕ
  pub recv : Option ℕ → Received

pub data Effect : Type 0 where
  terminated : (key : ℕ) → Effect
  unmapped : (ptr : ℕ) → Effect
  unlinked : (name : Bytes) → Effect
  closed_socket : Option ℕ → Effect
  sent : Option ℕ → ℕ → Effect
  on_signal : (node value : ℕ) → Effect
  on_packet : (node packet_id : ℕ) → Bytes → Effect

-- What is released when a session that still waits, or an active one, is given up.
unfoldable pub release : Option ℕ → NodeSession → List Effect
release socket s =
    terminated s.key
    ∷ unmapped s.mapped_ptr
    ∷ unlinked s.shared_mem_name
    ∷ closed_socket socket
    ∷ []

-- `m[key] = value`, `find` and `erase` of the map.
unfoldable pub map_insert : ℕ → ℕ → List (ℕ × ℕ) → List (ℕ × ℕ)
map_insert id key [] = (id, key) ∷ []
map_insert id key (e ∷ m) = if e.0 == id then (id, key) ∷ m else e ∷ map_insert id key m

unfoldable pub map_find : ℕ → List (ℕ × ℕ) → Option ℕ
map_find id [] = none
map_find id (e ∷ m) = if e.0 == id then some e.1 else map_find id m

unfoldable pub map_erase : ℕ → List (ℕ × ℕ) → List (ℕ × ℕ)
map_erase id [] = []
map_erase id (e ∷ m) = if e.0 == id then map_erase id m else e ∷ map_erase id m

-- The clock counts nanoseconds.
abbrev pub five_seconds : ℕ
five_seconds = 5000000000

-- The first loop of `update`, for one session: it has waited for more than five seconds, a node has
-- connected, or it stays.
pub promoted : ℕ → NodeSession → NodeSession
promoted new_sock s = record s {
  data_socket = some new_sock;
  is_ready = true;
  listener_socket = none;
}

pub accepted : Option ℕ → World → NodeSession → IpcManager → IpcManager × List Effect
unfolding promoted
accepted none w s m = (record m { m_pending_sessions = s ∷ m.m_pending_sessions }, [])
accepted (some new_sock) w s m = (
  record m {
    m_active_sessions = m.m_active_sessions ++ promoted new_sock s ∷ [];
    m_active_session_map = map_insert (w.id_of s.key) s.key m.m_active_session_map;
  },
  closed_socket s.listener_socket ∷ [],
)

pub visit_pending : World → NodeSession → IpcManager → IpcManager × List Effect
unfolding accepted
visit_pending w s m =
    if ltb (s.creation_time + five_seconds) w.now
    then (m, release s.listener_socket s)
    else accepted (w.accept s.listener_socket) w s m

-- The loop goes from the last session to the first; `m` has none of the list yet, and gets those that
-- stay.
pub pending_loop : World → List NodeSession → IpcManager → IpcManager × List Effect
unfolding visit_pending
pending_loop w [] m = (m, [])
pending_loop w (s ∷ sessions) m =
    let later = pending_loop w sessions m in
    let here = visit_pending w s later.0 in (here.0, later.1 ++ here.1)

pub visit_all_pending : World → IpcManager → IpcManager × List Effect
unfolding pending_loop
visit_all_pending w m = pending_loop w m.m_pending_sessions (record m { m_pending_sessions = [] })

-- The second loop, for one active session whose ring is emptied: it receives a byte, or it is over.
pub polled : Received → World → NodeSession → IpcManager → IpcManager × List Effect
polled (signal value) w s m =
    (record m { m_active_sessions = s ∷ m.m_active_sessions }, on_signal (w.id_of s.key) value ∷ [])
polled would_block w s m = (record m { m_active_sessions = s ∷ m.m_active_sessions }, [])
polled closed w s m = (
  record m { m_active_session_map = map_erase (w.id_of s.key) m.m_active_session_map },
  release s.data_socket s,
)
polled failed w s m = (
  record m { m_active_session_map = map_erase (w.id_of s.key) m.m_active_session_map },
  release s.data_socket s,
)

-- `while (node->mino.pop(…)) on_packet(…)`, at most `fuel` rounds; `none` if it is not over by then.
pub empty_ring :
    ℕ
    → (node : ℕ) → RingBufferView
    → PacketHeader
    → Bytes
    → Memory
    → Option (List Effect × (Memory × Bytes))
empty_ring zero node v header buffer m = none
empty_ring (suc fuel) node v header buffer m =
    let p = pop v header buffer m in
    let later = empty_ring fuel node v p.header p.buffer p.memory in
    if has_value p.result
    then with_call (on_packet node p.header.id (take p.header.payload_size p.buffer)) later
    else some ([], (p.memory, p.buffer))
  where
    with_call :
        Effect → Option (List Effect × (Memory × Bytes)) → Option (List Effect × (Memory × Bytes))
    with_call call none = none
    with_call call (some r) = some (call ∷ r.0, r.1)

-- The second loop of `update`, from the last session to the first. `m` has none of the list yet. The
-- buffer is the manager's, which every ring is read into; the header is not initialized in the source.
pub active_loop :
    ℕ
    → World
    → PacketHeader
    → List NodeSession
    → IpcManager
    → Bytes
    → Option ((IpcManager × List Effect) × Bytes)
unfolding polled empty_ring
active_loop fuel w header [] m buffer = some ((m, []), buffer)
active_loop fuel w header (s ∷ sessions) m buffer =
    after_later (active_loop fuel w header sessions m buffer)
  where
    after_ring :
        IpcManager × List Effect
        → Option (List Effect × (Memory × Bytes))
        → Option ((IpcManager × List Effect) × Bytes)
    after_ring later none = none
    after_ring later (some r) =
        let drained = record s { mino_memory = r.1.0 } in
        let here = polled (w.recv s.data_socket) w drained later.0 in
        some ((here.0, later.1 ++ (r.0 ++ here.1)), r.1.1)

    after_later :
        Option ((IpcManager × List Effect) × Bytes) → Option ((IpcManager × List Effect) × Bytes)
    after_later none = none
    after_later (some later) =
        after_ring later.0
          (empty_ring fuel (w.id_of s.key) s.mino.view header later.1 s.mino_memory)

-- `update`; the two loops may see different worlds.
pub update :
    ℕ
    → World
    → World
    → PacketHeader
    → Bytes
    → IpcManager
    → Option ((IpcManager × List Effect) × Bytes)
unfolding visit_all_pending active_loop
update fuel pending_world active_world header buffer m =
    let first = visit_all_pending pending_world m in
    with_effects first.1 (
      active_loop fuel active_world header first.0.m_active_sessions
        (record first.0 { m_active_sessions = [] }) buffer)
  where
    with_effects :
        List Effect
        → Option ((IpcManager × List Effect) × Bytes)
        → Option ((IpcManager × List Effect) × Bytes)
    with_effects before none = none
    with_effects before (some r) = some ((r.0.0, before ++ r.0.1), r.1)

-- The active session that a pointer designates; `none` if it is no longer there.
unfoldable pub session_at : ℕ → List NodeSession → Option NodeSession
session_at key [] = none
session_at key (s ∷ sessions) = if s.key == key then some s else session_at key sessions

unfoldable pub without_key : ℕ → List NodeSession → List NodeSession
without_key key [] = []
without_key key (s ∷ sessions) =
    if s.key == key then without_key key sessions else s ∷ without_key key sessions

-- What a call on a node does: nothing, something, or a use of a session that is gone.
pub data Outcome (A : Type 0) : Type 0 where
  unknown_node use_after_free : Outcome A
  done : A → Outcome A

-- The two steps from an identifier to its session.
unfoldable pub pointed : Option ℕ → List NodeSession → Outcome NodeSession
pointed none sessions = unknown_node
pointed (some key) sessions = found (session_at key sessions)
  where
    found : Option NodeSession → Outcome NodeSession
    found none = use_after_free
    found (some s) = done s

unfoldable pub node_session : ℕ → IpcManager → Outcome NodeSession
unfolding pointed map_find session_at
node_session node m = pointed (map_find node m.m_active_session_map) m.m_active_sessions

unfoldable pub shut_down : ℕ → NodeSession → IpcManager → IpcManager × List Effect
shut_down node s m = (
  record m {
    m_active_sessions = without_key s.key m.m_active_sessions;
    m_active_session_map = map_erase node m.m_active_session_map;
  },
  release s.data_socket s,
)

pub shutdown_node : ℕ → IpcManager → Outcome (IpcManager × List Effect)
unfolding node_session shut_down
shutdown_node node m = act (node_session node m)
  where
    act : Outcome NodeSession → Outcome (IpcManager × List Effect)
    act unknown_node = done (m, [])
    act use_after_free = use_after_free
    act (done s) = done (shut_down node s m)

-- `send` is called only on a socket that is valid.
pub sent_to : Option ℕ → ℕ → List Effect
sent_to none value = []
sent_to (some socket) value = sent (some socket) value ∷ []

pub send_signal : ℕ → ℕ → IpcManager → Outcome (List Effect)
unfolding node_session sent_to
send_signal node value m = act (node_session node m)
  where
    act : Outcome NodeSession → Outcome (List Effect)
    act unknown_node = done []
    act use_after_free = use_after_free
    act (done s) = done (sent_to s.data_socket value)

-- The result, and the memory of the outgoing ring.
pub push_to : NodeSession → ℕ → Bytes → Result IpcError (Unit {0}) × Memory
push_to s packet_id payload =
    let pushed = push s.moni.view packet_id payload s.moni_memory in
    if not (is_valid s.moni.view)
    then (err invalid_ring, s.moni_memory)
    else (ring_result pushed.0, pushed.1)
  where
    ring_result : Result RingError (Unit {0}) → Result IpcError (Unit {0})
    ring_result (ok u) = ok u
    ring_result (err e) = err (ring_failed e)

-- `send_packet`: the result, the node's session and the memory of its outgoing ring.
pub send_packet_to :
    ℕ → ℕ → Bytes → IpcManager → Outcome (Result IpcError (Unit {0}) × Option (ℕ × Memory))
unfolding node_session push_to
send_packet_to node packet_id payload m = act (node_session node m)
  where
    act : Outcome NodeSession → Outcome (Result IpcError (Unit {0}) × Option (ℕ × Memory))
    act unknown_node = done (err no_such_node, none)
    act use_after_free = use_after_free
    act (done s) =
        let pushed = push_to s packet_id payload in done (pushed.0, some (s.key, pushed.1))

-- The destructor.
pub release_all : (NodeSession → Option ℕ) → List NodeSession → List Effect
release_all socket [] = []
release_all socket (s ∷ sessions) = release (socket s) s ++ release_all socket sessions

pub destroy : IpcManager → List Effect
unfolding release_all
destroy m =
    release_all (λ s. s.data_socket) m.m_active_sessions
    ++ release_all (λ s. s.listener_socket) m.m_pending_sessions

-- The condition of `wait_till_node_is_online` to go on waiting.
pub is_pending : World → ℕ → List NodeSession → Bool
is_pending w node [] = false
is_pending w node (s ∷ sessions) =
    if w.id_of s.key == node then true else is_pending w node sessions

-- Whether the map has an identifier.
pub contains : ℕ → List (ℕ × ℕ) → Bool
unfolding map_find
contains node m = is_some (map_find node m)
  where
    is_some : Option ℕ → Bool
    is_some none = false
    is_some (some key) = true

-- `wait_till_node_is_online`, at most `rounds` rounds; `none` if it waits still. The worlds of its
-- rounds are those of the two loops of each `update`.
pub wait_till_node_is_online :
    (rounds fuel : ℕ)
    → (ℕ → World × World)
    → PacketHeader
    → Bytes
    → ℕ
    → IpcManager
    → Option (Bool × IpcManager)
unfolding is_pending update contains
wait_till_node_is_online zero fuel worlds header buffer node m = none
wait_till_node_is_online (suc rounds) fuel worlds header buffer node m =
    go_on (is_pending (worlds rounds).0 node m.m_pending_sessions)
      (wait_till_node_is_online rounds fuel worlds header)
      (update fuel (worlds rounds).0 (worlds rounds).1 header buffer m)
  where
    go_on :
        Bool
        → (Bytes → ℕ → IpcManager → Option (Bool × IpcManager))
        → Option ((IpcManager × List Effect) × Bytes)
        → Option (Bool × IpcManager)
    go_on pending wait none = none
    go_on true wait (some r) = wait r.1 node r.0.0
    go_on false wait (some r) = some (contains node r.0.0.m_active_session_map, r.0.0)
