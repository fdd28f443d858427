-- ===== src/Ipc/Manager/Backed.antt =====
-- IPC.cpp: the pointers of `m_active_session_map` designate sessions that are there, as long as the
-- identifier of no session's process changes; and what happens when one does.
use mathlib.Core.Path.{subst}
use iacore.Base.{
  ℕ, ◌+◌, ◌≡◌, refl, sym, ap, ◌∙◌, false, ◌⊎◌, inl, inr, Option, none, some, List, [], ◌∷◌, ◌++◌,
  ltb, ◌==◌, Bool-cases,
}
use iacore.Ipc.Manager.{
  NodeSession, IpcManager, five_seconds, new_manager, World, Received, signal, closed, would_block,
  failed, map_find, map_erase, promoted, accepted, visit_pending, pending_loop, visit_all_pending,
  polled, without_key, unknown_node, use_after_free, done, pointed, node_session, shut_down,
}
use iacore.Ipc.Manager.Entries.{
  has_key, IsBacked, has_key-append, has_key-last, has_key-middle, has_key-without_key, grown,
  map_erase-IsBacked, map_insert-IsBacked, map_find-IsBacked, pointed-IsBacked, gone_at,
  map_find-map_erase,
}

-- The turn of the session `s` of the list `before ++ s ∷ after`: the loop has been through `after`.
unfoldable pub turn :
    List NodeSession → List NodeSession → NodeSession → World → Received → IpcManager → IpcManager
unfolding polled
turn before after s w res m =
    let visited = (polled res w s (record m { m_active_sessions = after })).0 in
    record visited { m_active_sessions = before ++ visited.m_active_sessions }

-- What can happen to a manager while the identifier of no session's process changes: `spawn_node`
-- adds a session, the first loop of `update` runs, an active session has its turn in the second
-- loop, or `shutdown_node` finds a session. (Callbacks see the state between two of these.)
pub data Step (id : ℕ → ℕ) : IpcManager → IpcManager → Type 0 where
  spawns :
      {m : IpcManager} (s : NodeSession)
      → Step id m (record m { m_pending_sessions = m.m_pending_sessions ++ s ∷ [] })
  connects : {m : IpcManager} (w : World) → w.id_of ≡ id → Step id m (visit_all_pending w m).0
  polls :
      {m : IpcManager} (before after : List NodeSession) (s : NodeSession) (w : World)
      (res : Received)
      → w.id_of ≡ id
      → m.m_active_sessions ≡ before ++ s ∷ after
      → Step id m (turn before after s w res m)
  shuts :
      {m : IpcManager} (node : ℕ) (s : NodeSession)
      → node_session node m ≡ done s
      → Step id m (shut_down node s m).0

pub data Reachable (id : ℕ → ℕ) : IpcManager → Type 0 where
  start : Reachable id new_manager
  next : {m m' : IpcManager} → Reachable id m → Step id m m' → Reachable id m'

visit_pending-IsBacked :
    (w : World) (s : NodeSession) (m : IpcManager)
    → IsBacked w.id_of m.m_active_sessions m.m_active_session_map
    → IsBacked w.id_of
        (visit_pending w s m).0.m_active_sessions
        (visit_pending w s m).0.m_active_session_map
unfolding visit_pending accepted promoted
visit_pending-IsBacked w s m b = elim (Bool-cases (ltb (s.creation_time + five_seconds) w.now)) [
  | inl old ↦ rw old b
  | inr young ↦ rw young (accepted_by (w.accept s.listener_socket))
]
  where
    accepted_by :
        (socket : Option ℕ)
        → IsBacked w.id_of
            (accepted socket w s m).0.m_active_sessions
            (accepted socket w s m).0.m_active_session_map
    accepted_by none = b
    accepted_by (some socket) =
        map_insert-IsBacked w.id_of (m.m_active_sessions ++ promoted socket s ∷ []) s.key
          m.m_active_session_map (has_key-last m.m_active_sessions (promoted socket s))
          (grown w.id_of m.m_active_sessions (m.m_active_sessions ++ promoted socket s ∷ [])
            (λ key. has_key-append key m.m_active_sessions (promoted socket s ∷ []))
            m.m_active_session_map b)

pending_loop-IsBacked :
    (w : World) (sessions : List NodeSession) (m : IpcManager)
    → IsBacked w.id_of m.m_active_sessions m.m_active_session_map
    → IsBacked w.id_of
        (pending_loop w sessions m).0.m_active_sessions
        (pending_loop w sessions m).0.m_active_session_map
unfolding pending_loop
pending_loop-IsBacked w [] m b = b
pending_loop-IsBacked w (s ∷ sessions) m b =
    visit_pending-IsBacked w s (pending_loop w sessions m).0 (pending_loop-IsBacked w sessions m b)

turn-IsBacked :
    (w : World) (before after : List NodeSession) (s : NodeSession) (res : Received)
    (m : IpcManager)
    → IsBacked w.id_of (before ++ s ∷ after) m.m_active_session_map
    → IsBacked w.id_of
        (turn before after s w res m).m_active_sessions
        (turn before after s w res m).m_active_session_map
unfolding turn polled
turn-IsBacked w before after s (signal value) m b = b
turn-IsBacked w before after s would_block m b = b
turn-IsBacked w before after s closed m b =
    map_erase-IsBacked w.id_of (before ++ s ∷ after) (before ++ after) s.key
      (λ key other there. has_key-middle key before after s other there) m.m_active_session_map b
turn-IsBacked w before after s failed m b =
    map_erase-IsBacked w.id_of (before ++ s ∷ after) (before ++ after) s.key
      (λ key other there. has_key-middle key before after s other there) m.m_active_session_map b

node_session-IsBacked :
    (id : ℕ → ℕ) (node : ℕ) (m : IpcManager)
    → IsBacked id m.m_active_sessions m.m_active_session_map
    → (node_session node m ≡ unknown_node)
      ⊎ ((s : NodeSession) × (node_session node m ≡ done s) × (id s.key ≡ node))
unfolding node_session
node_session-IsBacked id node m b =
    pointed-IsBacked id m.m_active_sessions node (map_find node m.m_active_session_map)
      (λ key e. map_find-IsBacked id m.m_active_sessions node m.m_active_session_map key b e)

done_same : (a b : NodeSession) → done a ≡ done b → a ≡ b
done_same a b e = cc

shut_down-IsBacked :
    (id : ℕ → ℕ) (node : ℕ) (s : NodeSession) (m : IpcManager)
    → node_session node m ≡ done s
    → IsBacked id m.m_active_sessions m.m_active_session_map
    → IsBacked id
        (shut_down node s m).0.m_active_sessions
        (shut_down node s m).0.m_active_session_map
unfolding shut_down
shut_down-IsBacked id node s m e b = elim (node_session-IsBacked id node m b) [
  | inl unknown ↦ cc
  | inr (found, at, is) ↦
      let right : id s.key ≡ node = ap (λ z. id z.key) (done_same s found (sym e ∙ at)) ∙ is in
      subst
        (λ gone.
          IsBacked id (without_key s.key m.m_active_sessions)
            (map_erase gone m.m_active_session_map))
        right
        (map_erase-IsBacked id m.m_active_sessions (without_key s.key m.m_active_sessions) s.key
          (λ key other there. has_key-without_key key s.key m.m_active_sessions other there)
          m.m_active_session_map b)
]

Step-IsBacked :
    (id : ℕ → ℕ) {m m' : IpcManager}
    → Step id m m'
    → IsBacked id m.m_active_sessions m.m_active_session_map
    → IsBacked id m'.m_active_sessions m'.m_active_session_map
unfolding visit_all_pending
Step-IsBacked id (spawns s) b = b
Step-IsBacked id {m} (connects w same) b =
    subst
      (λ i.
        IsBacked i m.m_active_sessions m.m_active_session_map
        → IsBacked i (visit_all_pending w m).0.m_active_sessions
            (visit_all_pending w m).0.m_active_session_map)
      same (pending_loop-IsBacked w m.m_pending_sessions (record m { m_pending_sessions = [] })) b
Step-IsBacked id {m} (polls before after s w res same are) b =
    subst
      (λ i.
        IsBacked i (before ++ s ∷ after) m.m_active_session_map
        → IsBacked i (turn before after s w res m).m_active_sessions
            (turn before after s w res m).m_active_session_map)
      same (turn-IsBacked w before after s res m)
      (subst (λ l. IsBacked id l m.m_active_session_map) are b)
Step-IsBacked id {m} (shuts node s e) b = shut_down-IsBacked id node s m e b

Reachable-IsBacked :
    (id : ℕ → ℕ) {m : IpcManager}
    → Reachable id m
    → IsBacked id m.m_active_sessions m.m_active_session_map
unfolding IsBacked
Reachable-IsBacked id start = tt
Reachable-IsBacked id (next r step) = Step-IsBacked id step (Reachable-IsBacked id r)

-- As long as the identifier of no session's process changes, an identifier that a client gives to `send_signal`,
-- `send_packet` or `shutdown_node` is unknown, or leads to a session that is there and whose process has it: no call uses
-- a session that was given up, in whatever order sessions are spawned, connect, have their turns and are shut down.
pub node_session-Reachable :
    (id : ℕ → ℕ) (node : ℕ) {m : IpcManager}
    → Reachable id m
    → (node_session node m ≡ unknown_node)
      ⊎ ((s : NodeSession) × (node_session node m ≡ done s) × (id s.key ≡ node))
node_session-Reachable id node {m} r = node_session-IsBacked id node m (Reachable-IsBacked id r)

-- When the identifier of a session's process has changed since the session's node connected (it becomes 0 when the
-- process is over), and its socket is closed, the session is given up but its entry in the map stays: the next call
-- with its old identifier uses it after it is freed.
pub stale-turn :
    (node : ℕ) (before after : List NodeSession) (s : NodeSession) (w : World) (m : IpcManager)
    → map_find node m.m_active_session_map ≡ some s.key
    → (node == w.id_of s.key) ≡ false
    → has_key s.key (before ++ after) ≡ false
    → node_session node (turn before after s w closed m) ≡ use_after_free
unfolding turn polled node_session pointed
stale-turn node before after s w m found changed distinct =
    rw
      (
        map_find-map_erase node (w.id_of s.key) m.m_active_session_map changed,
        found,
        gone_at s.key (before ++ after) distinct,
      )
      refl
