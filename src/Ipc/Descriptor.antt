-- ===== src/Ipc/Descriptor.antt =====
-- Src/IACore/imp/cpp/IPC.cpp: the connection descriptor that a manager passes to a node as its
-- first argument. The laws are in Descriptor/RoundTrip.
pub mod RoundTrip
mod Tests
use iacore.Base.{
  ℕ, Bool, Option, none, some, [], ◌∷◌, ◌++◌, Bytes, codes, ◌==◌, if◌then◌else◌, format_u32,
  from_chars_u32,
}

pub record IpcConnectionDescriptor : Type 0 where
  pub socket_path : Bytes
  pub shared_mem_path : Bytes
  pub shared_mem_size : ℕ

abbrev pub bar : ℕ
bar = b'|'

pub serialize : IpcConnectionDescriptor → Bytes
serialize d =
    d.socket_path ++ bar ∷ (d.shared_mem_path ++ bar ∷ (format_u32 d.shared_mem_size ++ bar ∷ []))

pub data ParseState : Type 0 where
  in_socket_path in_shared_mem_path in_shared_mem_size : ParseState

-- `std::from_chars` writes the field only when it succeeds.
pub with_size : IpcConnectionDescriptor → Option ℕ → Option IpcConnectionDescriptor
with_size result none = none
with_size result (some size) = some (record result { shared_mem_size = size })

-- The loop of `deserialize`, on `data[i..)`; `field` is `data[t..i)`.
pub deserialize_loop :
    ParseState → Bytes → Bytes → IpcConnectionDescriptor → Option IpcConnectionDescriptor
unfolding with_size
deserialize_loop state field [] result = none
deserialize_loop ParseState.in_socket_path field (c ∷ text) result =
    let next =
      deserialize_loop ParseState.in_shared_mem_path [] text
        (record result { socket_path = field }) in
    let go_on = deserialize_loop ParseState.in_socket_path (field ++ c ∷ []) text result in
    if c == bar then next else go_on
deserialize_loop ParseState.in_shared_mem_path field (c ∷ text) result =
    let next =
      deserialize_loop ParseState.in_shared_mem_size [] text
        (record result { shared_mem_path = field }) in
    let go_on = deserialize_loop ParseState.in_shared_mem_path (field ++ c ∷ []) text result in
    if c == bar then next else go_on
deserialize_loop ParseState.in_shared_mem_size field (c ∷ text) result =
    let go_on = deserialize_loop ParseState.in_shared_mem_size (field ++ c ∷ []) text result in
    if c == bar then with_size result (from_chars_u32 field) else go_on

pub deserialize : Bytes → Option IpcConnectionDescriptor
unfolding deserialize_loop
deserialize text =
    deserialize_loop ParseState.in_socket_path [] text
      (record { socket_path = []; shared_mem_path = []; shared_mem_size = 0 })

-- The descriptor that `spawn_node` makes for the session `sid` (the paths of a Unix system).
pub session_descriptor : ℕ → ℕ → IpcConnectionDescriptor
session_descriptor sid shared_memory_size = record {
  socket_path = codes "/tmp/ia_sess_" ++ (format_u32 sid ++ codes ".sock");
  shared_mem_path = codes "ia_shm_" ++ format_u32 sid;
  shared_mem_size = shared_memory_size;
}

-- The argument text of the child: the serialized descriptor in quotation marks.
pub session_args : IpcConnectionDescriptor → Bytes
unfolding serialize
session_args d = b'"' ∷ serialize d ++ b'"' ∷ []
