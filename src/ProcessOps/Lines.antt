-- ===== src/ProcessOps/Lines.antt =====
-- ProcessOps.cpp: a line buffer reports the lines of the whole output, however it was cut.
use mathlib.Core.List.{flatten}
use iacore.Base.{
  ℕ, suc, ◌≡◌, ◌≢◌, refl, sym, ap, ◌∙◌, true, false, ◌&&◌, List, [], ◌∷◌, ◌++◌, append_assoc,
  append-nil, Bytes, All, All-append, length, unless_empty, ltb, Bool-cases, inl, inr, ◌==◌,
  if◌then◌else◌, arith,
}
use iacore.ProcessOps.{
  LineBuffer, is_line_end, end_line, keep_rest, append_loop, append, flush, read_chunks,
  output_lines,
}

-- The lines of a text behind the current line: cut at every `\n` and `\r`, the empty ones left out.
pub lines_of : Bytes → Bytes → List Bytes
unfolding is_line_end
lines_of current [] = unless_empty current
lines_of current (c ∷ text) =
    if is_line_end c
    then unless_empty current ++ lines_of [] text
    else lines_of (current ++ c ∷ []) text

-- What a buffer will have reported when the text is over.
abbrev reported : LineBuffer → Bytes → Bytes → List Bytes
reported b segment text = b.called ++ lines_of (b.m_accumulator ++ segment) text

zero_ltb : (n : ℕ) → ltb 0 (suc n) ≡ true
zero_ltb n = ground arith

buffer : Bytes → List Bytes → LineBuffer
buffer acc called = record { m_accumulator = acc; called = called }

flush_parts :
    (acc : Bytes) (called : List Bytes)
    → (flush (buffer acc called)).called ≡ called ++ unless_empty acc
unfolding flush buffer
flush_parts [] called = sym (append-nil called)
flush_parts (x ∷ acc) called = refl

reported-keep_rest :
    (segment : Bytes) (b : LineBuffer) (text : Bytes)
    → reported (keep_rest segment b) [] text ≡ reported b segment text
unfolding keep_rest
reported-keep_rest [] b text = refl
reported-keep_rest (x ∷ segment) b text = rw (zero_ltb (length segment), append-nil)

end_line_parts :
    (acc segment : Bytes) (called : List Bytes)
    → end_line segment (buffer acc called) ≡ buffer [] (called ++ unless_empty (acc ++ segment))
unfolding end_line buffer
end_line_parts [] [] called = ap (buffer []) (sym (append-nil called))
end_line_parts [] (y ∷ segment) called = rw (zero_ltb (length segment))
end_line_parts (x ∷ acc) segment called = refl

reported-end_line :
    (segment : Bytes) (b : LineBuffer) (c : ℕ) (text : Bytes)
    → is_line_end c ≡ true
    → reported (end_line segment b) [] text ≡ reported b segment (c ∷ text)
unfolding lines_of buffer
reported-end_line segment b c text h =
    ap (λ e. reported e [] text) (end_line_parts b.m_accumulator segment b.called)
    ∙ rw h (append_assoc b.called (unless_empty (b.m_accumulator ++ segment)) (lines_of [] text))

-- A line end behind a line end changes nothing.
end_line_skip :
    (segment : Bytes) (b : LineBuffer) (d : ℕ) (text : Bytes)
    → is_line_end d ≡ true
    → reported (end_line segment b) [] (d ∷ text) ≡ reported (end_line segment b) [] text
unfolding lines_of buffer
end_line_skip segment b d text h = rw (end_line_parts b.m_accumulator segment b.called) (rw h)

char_reported :
    (segment : Bytes) (b : LineBuffer) (c : ℕ) (text : Bytes)
    → is_line_end c ≡ false
    → reported b (segment ++ c ∷ []) text ≡ reported b segment (c ∷ text)
unfolding lines_of
char_reported segment b c text h = rw (h, append_assoc)

newline_is_line_end : (c d : ℕ) → (c == b'\r' && d == b'\n') ≡ true → is_line_end d ≡ true
unfolding is_line_end
newline_is_line_end c d h = ground arith

reported-append_loop :
    (chunk segment : Bytes) (b : LineBuffer) (text : Bytes)
    → reported (append_loop chunk segment b) [] text ≡ reported b segment (chunk ++ text)
unfolding append_loop
reported-append_loop [] segment b text = reported-keep_rest segment b text
reported-append_loop (c ∷ []) segment b text = elim (Bool-cases (is_line_end c)) [
  | inl ends ↦
      rw ends
        (reported-keep_rest [] (end_line segment b) text ∙ reported-end_line segment b c text ends)
  | inr keeps ↦
      rw keeps
        (reported-keep_rest (segment ++ c ∷ []) b text ∙ char_reported segment b c text keeps)
]
reported-append_loop (c ∷ d ∷ rest) segment b text = elim (Bool-cases (is_line_end c)) [
  | inl ends ↦ rw ends (elim (Bool-cases (c == b'\r' && d == b'\n')) [
    | inl both ↦ rw both (
        reported-append_loop rest [] (end_line segment b) text
        ∙ sym (end_line_skip segment b d (rest ++ text) (newline_is_line_end c d both))
        ∙ reported-end_line segment b c (d ∷ rest ++ text) ends)
    | inr one ↦ rw one (
        reported-append_loop (d ∷ rest) [] (end_line segment b) text
        ∙ reported-end_line segment b c (d ∷ rest ++ text) ends)
  ])
  | inr keeps ↦ rw keeps (
      reported-append_loop (d ∷ rest) (segment ++ c ∷ []) b text
      ∙ char_reported segment b c (d ∷ rest ++ text) keeps)
]

read_chunks-reported :
    (chunks : List Bytes) (b : LineBuffer)
    → (read_chunks chunks b).called ≡ reported b [] (flatten chunks)
unfolding read_chunks flatten append lines_of buffer
read_chunks-reported [] b =
    flush_parts b.m_accumulator b.called
    ∙ ap (λ t. b.called ++ unless_empty t) (sym (append-nil b.m_accumulator))
read_chunks-reported (chunk ∷ chunks) b =
    read_chunks-reported chunks (append chunk b) ∙ reported-append_loop chunk [] b (flatten chunks)

-- However the output of a child was cut into chunks, the callback is called with the non-empty
-- lines of the whole output, in order: `\n`, `\r` and `\r\n` end a line, also across two chunks.
pub output_lines_lem : (chunks : List Bytes) → output_lines chunks ≡ lines_of [] (flatten chunks)
unfolding output_lines
output_lines_lem chunks = read_chunks-reported chunks (record { m_accumulator = []; called = [] })

-- A line that is reported.
pub record IsLine (line : Bytes) : Type 0 where
  pub not_empty : line ≢ []
  pub no_end : All (λ c. is_line_end c ≡ false) line

unless_empty-IsLine : (s : Bytes) → All (λ c. is_line_end c ≡ false) s → All IsLine (unless_empty s)
unless_empty-IsLine [] h = tt
unless_empty-IsLine (c ∷ s) h = (record { not_empty = λ e. cc; no_end = h }, tt)

lines_of-IsLine :
    (current text : Bytes)
    → All (λ c. is_line_end c ≡ false) current
    → All IsLine (lines_of current text)
unfolding lines_of
lines_of-IsLine current [] h = unless_empty-IsLine current h
lines_of-IsLine current (c ∷ text) h = elim (Bool-cases (is_line_end c)) [
  | inl ends ↦ rw ends (
      All-append IsLine (unless_empty current) (lines_of [] text) (unless_empty-IsLine current h)
        (lines_of-IsLine [] text tt))
  | inr keeps ↦
      rw keeps
        (lines_of-IsLine (current ++ c ∷ []) text (All-append _ current (c ∷ []) h (keeps, tt)))
]

-- Every line that is reported is not empty and holds no line end.
pub output_lines-IsLine : (chunks : List Bytes) → All IsLine (output_lines chunks)
output_lines-IsLine chunks = rw output_lines_lem (lines_of-IsLine [] (flatten chunks) tt)
