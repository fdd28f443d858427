-- ===== src/Ipc/Descriptor/RoundTrip.antt =====
-- IPC.cpp: a node reads the descriptor that its manager wrote.
use iacore.Base.{
  ℕ, ◌^◌, ◌<◌, ◌≡◌, ◌≢◌, refl, sym, ap, ◌∙◌, true, false, Option, none, some, [], ◌∷◌, ◌++◌,
  append_assoc, append-nil, Bytes, codes, All-append, Lacks, is_digit, IsDecimal, format_u32,
  format_u32-IsDecimal, from_chars_u32-format_u32, arith, lacks, lacks-Lacks, List, ◌&&◌,
}
use iacore.ProcessOps.{split_arguments}
use iacore.ProcessOps.Arguments.{
  command_line, non_empty, command_line-plain, split_arguments-command_line,
}
use iacore.Ipc.Descriptor.{
  IpcConnectionDescriptor, bar, serialize, ParseState, in_socket_path, in_shared_mem_path,
  in_shared_mem_size, with_size, deserialize_loop, deserialize, session_descriptor, session_args,
}

-- A field is read up to its bar.
read_field :
    (state : ParseState) (s field text : Bytes) (result : IpcConnectionDescriptor)
    → Lacks bar s
    → deserialize_loop state field (s ++ text) result
      ≡ deserialize_loop state (field ++ s) text result
unfolding deserialize_loop
read_field state [] field text result h =
    ap (λ f. deserialize_loop state f text result) (sym (append-nil field))
read_field in_socket_path (c ∷ s) field text result h = ground (
  arith,
  read_field in_socket_path s (field ++ c ∷ []) text result h.1,
  append_assoc field (c ∷ []) s,
)
read_field in_shared_mem_path (c ∷ s) field text result h = ground (
  arith,
  read_field in_shared_mem_path s (field ++ c ∷ []) text result h.1,
  append_assoc field (c ∷ []) s,
)
read_field in_shared_mem_size (c ∷ s) field text result h = ground (
  arith,
  read_field in_shared_mem_size s (field ++ c ∷ []) text result h.1,
  append_assoc field (c ∷ []) s,
)

digit-Lacks : (s : Bytes) (b : ℕ) → is_digit b ≡ false → IsDecimal s → Lacks b s
unfolding is_digit
digit-Lacks [] b h d = tt
digit-Lacks (c ∷ s) b h d = (λ e. ground arith, digit-Lacks s b h d.1)

is_digit-bar : is_digit bar ≡ false
unfolding is_digit
is_digit-bar = refl

-- What a descriptor must be so that its text is unambiguous.
pub record IsDescriptor (d : IpcConnectionDescriptor) : Type 0 where
  pub socket_path_lacks : Lacks bar d.socket_path
  pub shared_mem_path_lacks : Lacks bar d.shared_mem_path
  pub size_fits : d.shared_mem_size < 2 ^ 32

at_bar_1 :
    (field text : Bytes) (r : IpcConnectionDescriptor)
    → deserialize_loop in_socket_path field (bar ∷ text) r
      ≡ deserialize_loop in_shared_mem_path [] text (record r { socket_path = field })
unfolding deserialize_loop
at_bar_1 field text r = refl

at_bar_2 :
    (field text : Bytes) (r : IpcConnectionDescriptor)
    → deserialize_loop in_shared_mem_path field (bar ∷ text) r
      ≡ deserialize_loop in_shared_mem_size [] text (record r { shared_mem_path = field })
unfolding deserialize_loop
at_bar_2 field text r = refl

at_bar_3 :
    (n : ℕ) (text : Bytes) (r : IpcConnectionDescriptor)
    → n < 2 ^ 32
    → deserialize_loop in_shared_mem_size (format_u32 n) (bar ∷ text) r
      ≡ some (record r { shared_mem_size = n })
unfolding deserialize_loop with_size
at_bar_3 n text r h = ap (with_size r) (from_chars_u32-format_u32 n h)

serialize_append :
    (d : IpcConnectionDescriptor) (rest : Bytes)
    → serialize d ++ rest
      ≡ d.socket_path
        ++ (bar ∷ (d.shared_mem_path ++ (bar ∷ (format_u32 d.shared_mem_size ++ (bar ∷ rest)))))
unfolding serialize
serialize_append d rest =
    append_assoc d.socket_path
      (bar ∷ (d.shared_mem_path ++ bar ∷ (format_u32 d.shared_mem_size ++ bar ∷ []))) rest
    ∙ ap (λ t. d.socket_path ++ bar ∷ t)
        (append_assoc d.shared_mem_path (bar ∷ (format_u32 d.shared_mem_size ++ bar ∷ [])) rest
          ∙ ap (λ t. d.shared_mem_path ++ bar ∷ t)
              (append_assoc (format_u32 d.shared_mem_size) (bar ∷ []) rest))

-- A descriptor whose paths hold no bar and whose size is a `u32` is read back from its text, whatever stands behind it.
pub deserialize-serialize :
    (d : IpcConnectionDescriptor) (rest : Bytes)
    → IsDescriptor d
    → deserialize (serialize d ++ rest) ≡ some d
unfolding deserialize
deserialize-serialize d rest h =
    let size_text = format_u32 d.shared_mem_size ++ bar ∷ rest in
    let empty : IpcConnectionDescriptor = record {
      socket_path = [];
      shared_mem_path = [];
      shared_mem_size = 0;
    } in
    let with_socket : IpcConnectionDescriptor = record empty { socket_path = d.socket_path } in
    let with_paths : IpcConnectionDescriptor = record with_socket {
      shared_mem_path = d.shared_mem_path;
    } in
    rw (serialize_append d rest) (
      read_field in_socket_path d.socket_path [] (bar ∷ (d.shared_mem_path ++ bar ∷ size_text))
        empty (h.socket_path_lacks)
      ∙ at_bar_1 d.socket_path (d.shared_mem_path ++ bar ∷ size_text) empty
      ∙ read_field in_shared_mem_path d.shared_mem_path [] (bar ∷ size_text) with_socket
          (h.shared_mem_path_lacks)
      ∙ at_bar_2 d.shared_mem_path size_text with_socket
      ∙ read_field in_shared_mem_size (format_u32 d.shared_mem_size) [] (bar ∷ rest) with_paths
          size_lacks
      ∙ at_bar_3 d.shared_mem_size rest with_paths (h.size_fits))
  where
    size_lacks : Lacks bar (format_u32 d.shared_mem_size)
    size_lacks =
        digit-Lacks (format_u32 d.shared_mem_size) bar is_digit-bar
          (format_u32-IsDecimal d.shared_mem_size)

-- The text of a session's descriptor holds nothing that a quoted argument escapes.
PlainText : Bytes → Type 0
PlainText s = Lacks b'"' s × Lacks b'\\' s

plain-append : (s t : Bytes) → PlainText s → PlainText t → PlainText (s ++ t)
unfolding PlainText
plain-append s t hs ht =
    (All-append (λ c. c ≢ b'"') s t hs.0 ht.0, All-append (λ c. c ≢ b'\\') s t hs.1 ht.1)

is_digit_mark : is_digit b'"' ≡ false
unfolding is_digit
is_digit_mark = refl

is_digit_backslash : is_digit b'\\' ≡ false
unfolding is_digit
is_digit_backslash = refl

format_u32-plain : (n : ℕ) → PlainText (format_u32 n)
unfolding PlainText
format_u32-plain n = (
  digit-Lacks (format_u32 n) b'"' is_digit_mark (format_u32-IsDecimal n),
  digit-Lacks (format_u32 n) b'\\' is_digit_backslash (format_u32-IsDecimal n),
)

literal-plain : (s : Bytes) → (lacks b'"' s && lacks b'\\' s) ≡ true → PlainText s
unfolding PlainText
literal-plain s h = (lacks-Lacks b'"' s (ground arith), lacks-Lacks b'\\' s (ground arith))

session-plain : (sid size : ℕ) → PlainText (serialize (session_descriptor sid size))
unfolding serialize session_descriptor
session-plain sid size =
    plain-append (codes "/tmp/ia_sess_" ++ (format_u32 sid ++ codes ".sock"))
      (bar ∷ ((codes "ia_shm_" ++ format_u32 sid) ++ bar ∷ (format_u32 size ++ bar ∷ [])))
      (plain-append (codes "/tmp/ia_sess_") (format_u32 sid ++ codes ".sock")
        (literal-plain (codes "/tmp/ia_sess_") refl)
        (plain-append (format_u32 sid) (codes ".sock") (format_u32-plain sid)
          (literal-plain (codes ".sock") refl)))
      (plain-append (codes "|ia_shm_" ++ format_u32 sid) (bar ∷ (format_u32 size ++ bar ∷ []))
        (plain-append (codes "|ia_shm_") (format_u32 sid) (literal-plain (codes "|ia_shm_") refl)
          (format_u32-plain sid))
        (plain-append (bar ∷ format_u32 size) (bar ∷ [])
          (plain-append (bar ∷ []) (format_u32 size) (literal-plain (bar ∷ []) refl)
            (format_u32-plain size))
          (literal-plain (bar ∷ []) refl)))

number-Lacks-bar : (n : ℕ) → Lacks bar (format_u32 n)
number-Lacks-bar n = digit-Lacks (format_u32 n) bar is_digit-bar (format_u32-IsDecimal n)

session-IsDescriptor : (sid size : ℕ) → size < 2 ^ 32 → IsDescriptor (session_descriptor sid size)
unfolding session_descriptor
session-IsDescriptor sid size h = record {
  socket_path_lacks =
      All-append (λ c. c ≢ bar) (codes "/tmp/ia_sess_") (format_u32 sid ++ codes ".sock")
        (lacks-Lacks bar (codes "/tmp/ia_sess_") refl)
        (All-append (λ c. c ≢ bar) (format_u32 sid) (codes ".sock") (number-Lacks-bar sid)
          (lacks-Lacks bar (codes ".sock") refl));
  shared_mem_path_lacks =
      All-append (λ c. c ≢ bar) (codes "ia_shm_") (format_u32 sid)
        (lacks-Lacks bar (codes "ia_shm_") refl) (number-Lacks-bar sid);
  size_fits = h;
}

-- The one argument of `args`, read as a descriptor.
pub first_argument : List Bytes → Option IpcConnectionDescriptor
first_argument [] = none
first_argument (arg ∷ args) = deserialize arg

first_argument-one :
    (s : Bytes) (d : IpcConnectionDescriptor)
    → deserialize s ≡ some d
    → first_argument (non_empty (s ∷ [])) ≡ some d
unfolding first_argument non_empty deserialize deserialize_loop
first_argument-one [] d h = cc
first_argument-one (c ∷ s) d h = h

session_args-command_line :
    (sid size : ℕ)
    → session_args (session_descriptor sid size)
      ≡ command_line (serialize (session_descriptor sid size) ∷ [])
unfolding session_args PlainText
session_args-command_line sid size =
    command_line-plain (serialize (session_descriptor sid size)) (session-plain sid size).0
      (session-plain sid size).1

-- The child that `spawn_node` starts reads its session's descriptor from its first argument, for every session
-- number and every shared memory size that is a `u32`.
pub first_argument-session_args :
    (sid size : ℕ)
    → size < 2 ^ 32
    → first_argument (split_arguments (session_args (session_descriptor sid size)))
      ≡ some (session_descriptor sid size)
first_argument-session_args sid size h =
    let d = session_descriptor sid size in
    ap first_argument (
      ap split_arguments (session_args-command_line sid size)
      ∙ split_arguments-command_line (serialize d ∷ []))
    ∙ first_argument-one (serialize d) d (
        ap deserialize (sym (append-nil (serialize d)))
        ∙ deserialize-serialize d [] (session-IsDescriptor sid size h))
