-- ===== src/ProcessOps.antt =====
-- Src/IACore/imp/cpp/ProcessOps.cpp: how the output of a child process is cut into lines, and how
-- its argument text is cut into arguments. The laws are in ProcessOps/Lines and
-- ProcessOps/Arguments. What the callback is called with is a list, oldest first. The two sides of the
-- `fork` are in ProcessOps/Child and ProcessOps/Redirect, and the handle is in ProcessOps/Handle.
pub mod Lines
pub mod Arguments
pub mod Child
pub mod Redirect
pub mod Handle
mod Tests
use iacore.Base.{
  ℕ, zero, suc, Bool, true, false, ◌&&◌, ◌||◌, not, List, [], ◌∷◌, ◌++◌, Bytes, length, ltb, ◌==◌,
  if◌then◌else◌,
}

-- A `LineBuffer`: its accumulator, and the calls of `m_callback` so far.
pub record LineBuffer : Type 0 where
  pub m_accumulator : Bytes
  pub called : List Bytes

pub is_empty : Bytes → Bool
is_empty [] = true
is_empty (c ∷ s) = false

pub is_line_end : ℕ → Bool
is_line_end c = c == b'\n' || c == b'\r'

-- The body of the loop of `append` at a line end; `segment` is `data[start..i)`.
pub end_line : Bytes → LineBuffer → LineBuffer
unfolding is_empty
end_line segment b =
    if not (is_empty b.m_accumulator)
    then (let line = b.m_accumulator ++ segment in
        record {
          m_accumulator = [];
          called = if not (is_empty line) then b.called ++ line ∷ [] else b.called;
        })
    else if ltb 0 (length segment)
    then record b { called = b.called ++ segment ∷ [] }
    else b

-- What `append` does behind the loop.
pub keep_rest : Bytes → LineBuffer → LineBuffer
keep_rest segment b =
    if ltb 0 (length segment) then record b { m_accumulator = b.m_accumulator ++ segment } else b

-- The loop of `append` on `data[i..size)`; a `\n` right behind a `\r` is skipped.
pub append_loop : Bytes → Bytes → LineBuffer → LineBuffer
unfolding end_line keep_rest is_line_end
append_loop [] segment b = keep_rest segment b
append_loop (c ∷ []) segment b =
    if is_line_end c then keep_rest [] (end_line segment b) else keep_rest (segment ++ c ∷ []) b
append_loop (c ∷ d ∷ rest) segment b =
    let skip = append_loop rest [] (end_line segment b) in
    let next = append_loop (d ∷ rest) [] (end_line segment b) in
    let keep = append_loop (d ∷ rest) (segment ++ c ∷ []) b in
    if is_line_end c then (if c == b'\r' && d == b'\n' then skip else next) else keep

pub append : Bytes → LineBuffer → LineBuffer
unfolding append_loop
append chunk b = append_loop chunk [] b

pub flush : LineBuffer → LineBuffer
unfolding is_empty
flush b =
    if not (is_empty b.m_accumulator)
    then record { m_accumulator = []; called = b.called ++ b.m_accumulator ∷ [] }
    else b

-- The loop that reads the pipe, over the chunks that `read` returns until it returns 0 or less.
pub read_chunks : List Bytes → LineBuffer → LineBuffer
read_chunks [] b = flush b
read_chunks (chunk ∷ chunks) b = read_chunks chunks (append chunk b)

pub output_lines : List Bytes → List Bytes
unfolding read_chunks append flush
output_lines chunks = (read_chunks chunks (record { m_accumulator = []; called = [] })).called

-- The variables of the loop that cuts the arguments.
pub record Splitter : Type 0 where
  pub arg_storage : List Bytes
  pub current_token : Bytes
  pub in_quotes : Bool
  pub is_escaped : Bool

pub split_char : ℕ → Splitter → Splitter
unfolding is_empty
split_char c s =
    if s.is_escaped
    then record s { current_token = s.current_token ++ c ∷ []; is_escaped = false }
    else if c == b'\\'
    then record s { is_escaped = true }
    else if c == b'"'
    then record s { in_quotes = not s.in_quotes }
    else if c == b' ' && not s.in_quotes
    then (if not (is_empty s.current_token)
        then record s { arg_storage = s.arg_storage ++ s.current_token ∷ []; current_token = [] }
        else s)
    else record s { current_token = s.current_token ++ c ∷ [] }

pub split_loop : Bytes → Splitter → Splitter
split_loop [] s = s
split_loop (c ∷ args) s = split_loop args (split_char c s)

pub last_token : Splitter → List Bytes
unfolding is_empty
last_token s =
    if not (is_empty s.current_token) then s.arg_storage ++ s.current_token ∷ [] else s.arg_storage

-- The arguments that `spawn_process_posix` passes behind the command's name.
pub split_arguments : Bytes → List Bytes
unfolding split_loop split_char last_token
split_arguments args = last_token (
    split_loop args
      (record { arg_storage = []; current_token = []; in_quotes = false; is_escaped = false }))
