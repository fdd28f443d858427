-- ===== src/System/Sockets.antt =====
-- Src/IACore/imp/cpp/SocketOps.cpp: SocketOps, on a Unix system. What the operating system answers
-- is an argument, and `none` is `INVALID_SOCKET`; the calls are recorded in their order.
use iacore.Base.{
  ℕ, Bool, false, Option, none, some, List, [], ◌∷◌, Bytes, take, ◌||◌, ◌==◌, if◌then◌else◌, Result,
  ok, err,
}

pub data SocketError : Type 0 where
  listen_failed socket_failed invalid_handle bind_failed connect_failed : SocketError

pub data SocketCall : Type 0 where
  closed : (sock : ℕ) → SocketCall
  unlinked : (path : Bytes) → SocketCall
  bound connected : (sock : ℕ) (path : Bytes) → SocketCall
  bound_port : (sock port : ℕ) → SocketCall

pub close : Option ℕ → List SocketCall
close none = []
close (some sock) = closed sock ∷ []

pub listen : (listens : Bool) → Result SocketError (Unit {0})
listen listens = if listens then ok tt else err listen_failed

pub create_unix_socket : Option ℕ → Result SocketError ℕ
create_unix_socket none = err socket_failed
create_unix_socket (some sock) = ok sock

-- `sun_path` has 108 bytes, the last of which stays 0.
abbrev pub max_len : ℕ
max_len = 107

pub bind_unix_socket :
    (binds : Bool) → Option ℕ → Bytes → Result SocketError (Unit {0}) × List SocketCall
bind_unix_socket binds none path = (err invalid_handle, [])
bind_unix_socket binds (some sock) path =
    (if binds then ok tt else err bind_failed, unlinked path ∷ bound sock (take max_len path) ∷ [])

pub connect_unix_socket :
    (connects : Bool) → Option ℕ → Bytes → Result SocketError (Unit {0}) × List SocketCall
connect_unix_socket connects none path = (err invalid_handle, [])
connect_unix_socket connects (some sock) path =
    (if connects then ok tt else err connect_failed, connected sock (take max_len path) ∷ [])

pub is_port_available : (made : Option ℕ) (binds : Bool) → (port : ℕ) → Bool × List SocketCall
unfolding close
is_port_available none binds port = (false, [])
is_port_available (some sock) binds port = (binds, bound_port sock port ∷ close (some sock))

pub is_would_block : (errno ewouldblock eagain : ℕ) → Bool
is_would_block errno ewouldblock eagain = errno == ewouldblock || errno == eagain
