-- ===== src/Ipc/Spawn/Failures.antt =====
-- IPC.cpp: what a call of `spawn_node` that fails leaves behind.
use iacore.Base.{ℕ, ◌≡◌, refl, inl, inr, Option, none, some, List, ◌∷◌, Result, ok, err, Bool-cases}
use iacore.RingBuffer.{RingError}
use iacore.Ipc.Layout.{divide}
use iacore.Ipc.Node.{IpcError}
use iacore.Ipc.Manager.{IpcManager}
use iacore.Ipc.Spawn.{
  SpawnWorld, Acquired, opened_socket, Spawned, Rings, make_rings, spawn_process, spawn_rings,
  spawn_mapped, spawn_socket, spawn_node,
}

-- A failure that leaves the manager as it was and the socket open; or a success, whose session has
-- all that was acquired.
data HasSocket (m : IpcManager) (socket : ℕ) : Spawned → Type 0 where
  failed :
      (e : IpcError) (rest : List Acquired)
      → HasSocket m socket
          (record { result = err e; manager = m; acquired = opened_socket socket ∷ rest })
  succeeded :
      (pid : ℕ) (m' : IpcManager) (rest : List Acquired)
      → HasSocket m socket
          (record { result = ok pid; manager = m'; acquired = opened_socket socket ∷ rest })

spawn_process-HasSocket :
    (process : Option ℕ) (w : SpawnWorld) (socket ptr : ℕ) (rings : Rings) (m : IpcManager)
    → HasSocket m socket (spawn_process process w socket ptr rings m)
unfolding spawn_process
spawn_process-HasSocket none w socket ptr rings m = failed _ _
spawn_process-HasSocket (some key) w socket ptr rings m = elim (Bool-cases w.active) [
  | inl yes_active ↦ rw yes_active (succeeded _ _ _)
  | inr no_active ↦ rw no_active (failed _ _)
]

spawn_rings-HasSocket :
    (rings : Result RingError Rings) (w : SpawnWorld) (socket ptr : ℕ) (m : IpcManager)
    → HasSocket m socket (spawn_rings rings w socket ptr m)
unfolding spawn_rings
spawn_rings-HasSocket (err e) w socket ptr m = failed _ _
spawn_rings-HasSocket (ok rings) w socket ptr m =
    spawn_process-HasSocket w.process w socket ptr rings m

spawn_mapped-HasSocket :
    (mapped : Option ℕ) (w : SpawnWorld) (size socket : ℕ) (m : IpcManager)
    → HasSocket m socket (spawn_mapped mapped w size socket m)
unfolding spawn_mapped
spawn_mapped-HasSocket none w size socket m = failed _ _
spawn_mapped-HasSocket (some ptr) w size socket m =
    spawn_rings-HasSocket (make_rings ptr (divide size) w.moni_memory w.mino_memory) w socket ptr m

spawn_socket-HasSocket :
    (w : SpawnWorld) (size socket : ℕ) (m : IpcManager)
    → HasSocket m socket (spawn_socket (some socket) w size m)
unfolding spawn_socket
spawn_socket-HasSocket w size socket m = elim (Bool-cases w.bound) [
  | inr not_bound ↦ simp not_bound (failed _ _)
  | inl bound ↦ elim (Bool-cases w.listening) [
    | inr not_listening ↦ simp (bound, not_listening) (failed _ _)
    | inl listening ↦ simp (bound, listening) (spawn_mapped-HasSocket w.mapped w size socket m)
  ]
]

left_open :
    {m : IpcManager} {socket : ℕ} {s : Spawned}
    → HasSocket m socket s
    → (e : IpcError) → s.result ≡ err e
    → (s.manager ≡ m) × (rest : List Acquired) × (s.acquired ≡ opened_socket socket ∷ rest)
left_open (failed e' rest) e is = (refl, rest, refl)
left_open (succeeded pid m' rest) e is = cc

-- A call of `spawn_node` that fails after its socket is made leaves the manager as it was, so that no session has the
-- socket, and does not close it: the socket is leaked.
pub spawn_node-leak :
    (w : SpawnWorld) (size socket : ℕ) (m : IpcManager) (e : IpcError)
    → w.unix_socket ≡ some socket
    → (spawn_node w size m).result ≡ err e
    → ((spawn_node w size m).manager ≡ m)
      × (rest : List Acquired) × ((spawn_node w size m).acquired ≡ opened_socket socket ∷ rest)
unfolding spawn_node
spawn_node-leak w size socket m e made =
    simp made (left_open (spawn_socket-HasSocket w size socket m) e)
