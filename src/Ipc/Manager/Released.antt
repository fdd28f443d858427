-- ===== src/Ipc/Manager/Released.antt =====
-- IPC.cpp: whatever happens to a manager, the process of each session is terminated and its shared
-- memory unmapped exactly once by the time the manager is destroyed.
use iacore.Base.{
  ℕ, ◌+◌, ◌≤◌, ◌≡◌, refl, sym, ap, ◌∙◌, inl, inr, Option, none, some, List, [], ◌∷◌, ◌++◌, ltb,
  ◌==◌, if◌then◌else◌, Bool-cases, Option-cases, ==→eq, arith,
}
use iacore.Ipc.Manager.{
  NodeSession, IpcManager, five_seconds, new_manager, World, Effect, Received, signal, closed,
  would_block, failed, terminated, unmapped, unlinked, closed_socket, sent, on_signal, on_packet,
  release, promoted, accepted, visit_pending, pending_loop, visit_all_pending, polled, session_at,
  without_key, done, use_after_free, pointed, node_session, shut_down, shutdown_node, Outcome,
  unknown_node, release_all, destroy, map_find,
}
use iacore.Ipc.Manager.Backed.{turn}

-- A way to count: so much for a process, and so much for a shared memory.
unfoldable pub total : (ℕ → ℕ) → (ℕ → ℕ) → List NodeSession → ℕ
total a b [] = 0
total a b (s ∷ sessions) = (a s.key + b s.mapped_ptr) + total a b sessions

-- The same of what effects terminate and unmap.
unfoldable pub gone : (ℕ → ℕ) → (ℕ → ℕ) → List Effect → ℕ
gone a b [] = 0
gone a b (terminated key ∷ es) = a key + gone a b es
gone a b (unmapped ptr ∷ es) = b ptr + gone a b es
gone a b (unlinked name ∷ es) = gone a b es
gone a b (closed_socket s ∷ es) = gone a b es
gone a b (sent s value ∷ es) = gone a b es
gone a b (on_signal node value ∷ es) = gone a b es
gone a b (on_packet node id payload ∷ es) = gone a b es

-- What counts one number only.
unfoldable pub only : ℕ → ℕ → ℕ
only n k = if k == n then 1 else 0

unfoldable pub nothing : ℕ → ℕ
nothing k = 0

module _ (a b : ℕ → ℕ) where
  -- What a manager has.
  unfoldable pub held : IpcManager → ℕ
  held m = total a b m.m_active_sessions + total a b m.m_pending_sessions

  total-append : (xs ys : List NodeSession) → total a b (xs ++ ys) ≡ total a b xs + total a b ys
  unfolding total
  total-append [] ys = omega arith
  total-append (x ∷ xs) ys = omega (arith, total-append xs ys)

  gone-append : (xs ys : List Effect) → gone a b (xs ++ ys) ≡ gone a b xs + gone a b ys
  unfolding gone
  gone-append [] ys = omega arith
  gone-append (terminated key ∷ xs) ys = omega (arith, gone-append xs ys)
  gone-append (unmapped ptr ∷ xs) ys = omega (arith, gone-append xs ys)
  gone-append (unlinked name ∷ xs) ys = gone-append xs ys
  gone-append (closed_socket s ∷ xs) ys = gone-append xs ys
  gone-append (sent s value ∷ xs) ys = gone-append xs ys
  gone-append (on_signal node value ∷ xs) ys = gone-append xs ys
  gone-append (on_packet node id payload ∷ xs) ys = gone-append xs ys

  visit_pending_held :
      (w : World) (s : NodeSession) (m : IpcManager)
      → held (visit_pending w s m).0 + gone a b (visit_pending w s m).1
        ≡ (a s.key + b s.mapped_ptr) + held m
  unfolding visit_pending accepted promoted release total gone held
  visit_pending_held w s m = elim (Bool-cases (ltb (s.creation_time + five_seconds) w.now)) [
    | inl old ↦ rw old (omega arith)
    | inr young ↦ rw young (accepted_held (w.accept s.listener_socket))
  ]
    where
      accepted_held :
          (socket : Option ℕ)
          → held (accepted socket w s m).0 + gone a b (accepted socket w s m).1
            ≡ (a s.key + b s.mapped_ptr) + held m
      accepted_held none = omega arith
      accepted_held (some socket) =
          omega (arith, total-append m.m_active_sessions (promoted socket s ∷ []))

  pending_loop_held :
      (w : World) (sessions : List NodeSession) (m : IpcManager)
      → held (pending_loop w sessions m).0 + gone a b (pending_loop w sessions m).1
        ≡ total a b sessions + held m
  unfolding pending_loop total gone
  pending_loop_held w [] m = omega arith
  pending_loop_held w (s ∷ sessions) m = omega (
    arith,
    pending_loop_held w sessions m,
    visit_pending_held w s (pending_loop w sessions m).0,
    gone-append (pending_loop w sessions m).1 (visit_pending w s (pending_loop w sessions m).0).1,
  )

  turn_held :
      (w : World) (before after : List NodeSession) (s : NodeSession) (res : Received)
      (m : IpcManager)
      → held (turn before after s w res m)
          + gone a b (polled res w s (record m { m_active_sessions = after })).1
        ≡ total a b (before ++ s ∷ after) + total a b m.m_pending_sessions
  unfolding turn polled release gone total held
  turn_held w before after s (signal value) m = omega arith
  turn_held w before after s would_block m = omega arith
  turn_held w before after s closed m =
      omega (arith, total-append before (s ∷ after), total-append before after)
  turn_held w before after s failed m =
      omega (arith, total-append before (s ∷ after), total-append before after)

  gone-release_all :
      (socket : NodeSession → Option ℕ) (sessions : List NodeSession)
      → gone a b (release_all socket sessions) ≡ total a b sessions
  unfolding release_all release gone total
  gone-release_all socket [] = refl
  gone-release_all socket (s ∷ sessions) = omega (arith, gone-release_all socket sessions)

  gone-destroy : (m : IpcManager) → gone a b (destroy m) ≡ held m
  unfolding destroy held
  gone-destroy m = omega (
    arith,
    gone-append (release_all (λ s. s.data_socket) m.m_active_sessions)
        (release_all (λ s. s.listener_socket) m.m_pending_sessions),
    gone-release_all (λ s. s.data_socket) m.m_active_sessions,
    gone-release_all (λ s. s.listener_socket) m.m_pending_sessions,
  )

-- A key that no session has, and the sessions without it.
without_key_absent :
    (key : ℕ) (sessions : List NodeSession)
    → total (only key) nothing sessions ≡ 0
    → without_key key sessions ≡ sessions
unfolding total only nothing without_key
without_key_absent key [] h = refl
without_key_absent key (s ∷ sessions) h = elim (Bool-cases (s.key == key)) [
  | inl same ↦ ground arith
  | inr other ↦ rw other (ap (λ l. s ∷ l) (without_key_absent key sessions (ground arith)))
]

some_same : (s t : NodeSession) → some s ≡ some t → s ≡ t
some_same s t e = cc

use_after_free-ne-done :
    (r : IpcManager × List Effect)
    → ¬ ◌≡◌ {A = Outcome (IpcManager × List Effect)} use_after_free (done r)
use_after_free-ne-done r e = cc

session_at_key :
    (key : ℕ) (sessions : List NodeSession) (s : NodeSession)
    → session_at key sessions ≡ some s
    → s.key ≡ key
unfolding session_at
session_at_key key [] s e = cc
session_at_key key (t ∷ sessions) s e = elim (Bool-cases (t.key == key)) [
  | inl same ↦ sym (ap (λ z. z.key) (some_same t s (rw same at e))) ∙ ==→eq t.key key same
  | inr other ↦ session_at_key key sessions s (rw other at e)
]

-- Taking out the only session with a key takes out that session.
total-without_key :
    (a b : ℕ → ℕ) (key : ℕ) (sessions : List NodeSession) (s : NodeSession)
    → session_at key sessions ≡ some s
    → total (only key) nothing sessions ≤ 1
    → total a b (without_key key sessions) + (a s.key + b s.mapped_ptr) ≡ total a b sessions
unfolding session_at total only nothing without_key
total-without_key a b key [] s e h = cc
total-without_key a b key (t ∷ sessions) s e h = elim (Bool-cases (t.key == key)) [
  | inl same ↦
      let is = some_same t s (rw same at e) in
      rw same (
        rw (without_key_absent key sessions (ground arith))
          (omega (arith, ap (λ z. a z.key) is, ap (λ z. b z.mapped_ptr) is)))
  | inr other ↦
      let rest = total-without_key a b key sessions s (rw other at e) (ground arith) in
      rw other (omega (arith, rest))
]

pointed-done :
    (found : Option ℕ) (sessions : List NodeSession) (s : NodeSession)
    → pointed found sessions ≡ done s
    → session_at s.key sessions ≡ some s
unfolding pointed
pointed-done none sessions s e = cc
pointed-done (some key) sessions s e = elim (Option-cases (session_at key sessions)) [
  | inl n ↦ absurd (rw n at e)
  | inr (t, at) ↦
      let is = done_same t s (rw at at e) in
      ap (λ k. session_at k sessions) (ap (λ z. z.key) (sym is) ∙ session_at_key key sessions t at)
      ∙ at
      ∙ ap (λ z. some z) is
]
  where
    absurd : use_after_free ≡ done s → session_at s.key sessions ≡ some s
    absurd f = cc

    done_same : (t u : NodeSession) → done t ≡ done u → t ≡ u
    done_same t u f = cc

module _ (a b : ℕ → ℕ) where
  shut_down_held :
      (node : ℕ) (s : NodeSession) (m : IpcManager)
      → node_session node m ≡ done s
      → held (only s.key) nothing m ≤ 1
      → held a b (shut_down node s m).0 + gone a b (shut_down node s m).1 ≡ held a b m
  unfolding node_session shut_down release held gone
  shut_down_held node s m e h = omega (
    arith,
    total-without_key a b s.key m.m_active_sessions s
        (pointed-done (map_find node m.m_active_session_map) m.m_active_sessions s e)
        (omega (arith, h)),
  )

  -- A call that finds no pointer to a session that is gone.
  shutdown_node_held :
      (node : ℕ) (m : IpcManager) (r : IpcManager × List Effect)
      → shutdown_node node m ≡ done r
      → ((key : ℕ) → held (only key) nothing m ≤ 1)
      → held a b r.0 + gone a b r.1 ≡ held a b m
  unfolding shutdown_node gone
  shutdown_node_held node m r e distinct = by_session (node_session node m) refl
    where
      result : (t : IpcManager × List Effect) → done t ≡ done r → t ≡ r
      result t f = cc

      by_session :
          (found : Outcome NodeSession)
          → node_session node m ≡ found
          → held a b r.0 + gone a b r.1 ≡ held a b m
      by_session unknown_node is =
          let same = result (m, []) (rw is at e) in
          ap (λ t. held a b t.0 + gone a b t.1) (sym same) ∙ omega arith
      by_session use_after_free is = absurd (use_after_free-ne-done r (rw is at e))
      by_session (done s) is =
          let same = result (shut_down node s m) (rw is at e) in
          ap (λ t. held a b t.0 + gone a b t.1) (sym same)
          ∙ shut_down_held node s m is (distinct s.key)

-- The life of a manager: the sessions that it was given, the last first, and the effects that it has
-- had. A new session stands at an address where no session of the manager is. `shutdown_node` is called
-- for an identifier that is not in the map, or whose session is still there.
pub data Life : IpcManager → List NodeSession → List Effect → Type 0 where
  start : Life new_manager [] []
  spawns :
      {m : IpcManager} {given : List NodeSession} {es : List Effect}
      → Life m given es
      → (s : NodeSession) → held (only s.key) nothing m ≡ 0
      → Life (record m { m_pending_sessions = m.m_pending_sessions ++ s ∷ [] }) (s ∷ given) es
  connects :
      {m : IpcManager} {given : List NodeSession} {es : List Effect}
      → Life m given es
      → (w : World) → Life (visit_all_pending w m).0 given (es ++ (visit_all_pending w m).1)
  polls :
      {m : IpcManager} {given : List NodeSession} {es : List Effect}
      → Life m given es
      → (before after : List NodeSession) (s : NodeSession) (w : World) (res : Received)
      → m.m_active_sessions ≡ before ++ s ∷ after
      → Life
          (turn before after s w res m)
          given
          (es ++ (polled res w s (record m { m_active_sessions = after })).1)
  shuts :
      {m : IpcManager} {given : List NodeSession} {es : List Effect}
      → Life m given es
      → (node : ℕ) (r : IpcManager × List Effect) → shutdown_node node m ≡ done r
      → Life r.0 given (es ++ r.1)

module _ (a b : ℕ → ℕ) where
  visit_all_pending_held :
      (w : World) (m : IpcManager)
      → held a b (visit_all_pending w m).0 + gone a b (visit_all_pending w m).1 ≡ held a b m
  unfolding visit_all_pending held total
  visit_all_pending_held w m =
      omega
        (arith, pending_loop_held a b w m.m_pending_sessions (record m { m_pending_sessions = [] }))

added_distinct :
    (m : IpcManager) (s : NodeSession) (key : ℕ)
    → held (only s.key) nothing m ≡ 0
    → held (only key) nothing m ≤ 1
    → held (only key) nothing (record m { m_pending_sessions = m.m_pending_sessions ++ s ∷ [] }) ≤ 1
unfolding held total only nothing
added_distinct m s key new old =
    let added = total-append (only key) nothing m.m_pending_sessions (s ∷ []) in
    elim (Bool-cases (s.key == key)) [
      | inl same ↦
          let is = ap (λ k. held (only k) nothing m) (==→eq s.key key same) in
          ground (arith, added, is, new)
      | inr other ↦ ground (arith, added)
    ]

-- No two sessions of a manager have one key.
Life-distinct :
    {m : IpcManager} {given : List NodeSession} {es : List Effect}
    → Life m given es
    → (key : ℕ) → held (only key) nothing m ≤ 1
unfolding held total
Life-distinct start key = omega arith
Life-distinct (spawns {m} life s new) key = added_distinct m s key new (Life-distinct life key)
Life-distinct (connects {m} life w) key =
    omega (arith, visit_all_pending_held (only key) nothing w m, Life-distinct life key)
Life-distinct (polls {m} life before after s w res are) key = omega (
  arith,
  turn_held (only key) nothing w before after s res m,
  ap (total (only key) nothing) are,
  Life-distinct life key,
)
Life-distinct (shuts {m} life node r e) key = omega (
  arith,
  shutdown_node_held (only key) nothing node m r e (Life-distinct life),
  Life-distinct life key,
)

-- What a manager was given it has still, or has given up.
Life-held :
    (a b : ℕ → ℕ) {m : IpcManager} {given : List NodeSession} {es : List Effect}
    → Life m given es
    → held a b m + gone a b es ≡ total a b given
unfolding held total gone
Life-held a b start = omega arith
Life-held a b (spawns {m} life s new) =
    omega (arith, Life-held a b life, total-append a b m.m_pending_sessions (s ∷ []))
Life-held a b (connects {m} {given} {es} life w) = omega (
  arith,
  Life-held a b life,
  visit_all_pending_held a b w m,
  gone-append a b es (visit_all_pending w m).1,
)
Life-held a b (polls {m} {given} {es} life before after s w res are) = omega (
  arith,
  Life-held a b life,
  turn_held a b w before after s res m,
  ap (total a b) are,
  gone-append a b es (polled res w s (record m { m_active_sessions = after })).1,
)
Life-held a b (shuts {m} {given} {es} life node r e) = omega (
  arith,
  Life-held a b life,
  shutdown_node_held a b node m r e (Life-distinct life),
  gone-append a b es r.1,
)

-- In whatever order sessions are added, connect, time out, have their turns in `update` and are shut down, as long as no
-- call of `shutdown_node` gets the identifier of a session that is gone but still in the map (the use after free that a
-- reused identifier leaves): when the manager is destroyed, each process was terminated, and each shared memory unmapped,
-- as often as it was given to the manager, so none is leaked and none is released twice. A call of `shutdown_node` for
-- an identifier that is not in the map is covered, and changes nothing.
pub Life-destroy :
    {m : IpcManager} {given : List NodeSession} {es : List Effect} (key ptr : ℕ)
    → Life m given es
    → (gone (only key) nothing (es ++ destroy m) ≡ total (only key) nothing given)
      × (gone nothing (only ptr) (es ++ destroy m) ≡ total nothing (only ptr) given)
Life-destroy {m} {given} {es} key ptr life = (at (only key) nothing, at nothing (only ptr))
  where
    at : (a b : ℕ → ℕ) → gone a b (es ++ destroy m) ≡ total a b given
    at a b = omega (arith, Life-held a b life, gone-append a b es (destroy m), gone-destroy a b m)
