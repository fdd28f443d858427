-- ===== src/Stream/Writer/Writes.antt =====
-- StreamWriter.cpp: sequences of writes, and writes into a span.
use iacore.Base.{
  ℕ, ◌+◌, ◌%◌, ◌≤◌, ◌<◌, ◌≡◌, refl, sym, ap, ◌∙◌, true, false, ◌⊎◌, inl, inr, List, [], ◌∷◌, ◌++◌,
  append_assoc, append-nil, Bytes, length, replicate, length-append, ltb, Bool-cases, Result, ok,
  err, ◌>>=◌, arith,
}
use iacore.Stream.Writer.{
  usize_mod, is_non_owning, WriterError, buffer_overflow, StreamWriter, vector_writer, make_room,
  write, write_fill,
}
use iacore.Stream.Writer.Appends.{
  written, IsWriter, Appended, write-Appended, write_fill-write, copied, copy_at_cursor-ok,
  copied-Appended, capacity-copied, length-written, written-take,
}

-- A call of one of the two `write`s.
pub data Write : Type 0 where
  bytes_of : Bytes → Write
  fill_of : (byte count : ℕ) → Write

unfoldable pub content_of : Write → Bytes
content_of (bytes_of bytes) = bytes
content_of (fill_of byte count) = replicate count byte

unfoldable pub one_write : Write → StreamWriter → Result WriterError StreamWriter
one_write (bytes_of bytes) w = write bytes w
one_write (fill_of byte count) w = write_fill byte count w

unfoldable pub contents : List Write → Bytes
unfolding content_of
contents [] = []
contents (c ∷ calls) = content_of c ++ contents calls

unfoldable pub run_writes : List Write → StreamWriter → Result WriterError StreamWriter
unfolding one_write
run_writes [] w = ok w
run_writes (c ∷ calls) w = one_write c w >>= run_writes calls

one_write-content : (c : Write) (w : StreamWriter) → one_write c w ≡ write (content_of c) w
unfolding one_write content_of
one_write-content (bytes_of bytes) w = refl
one_write-content (fill_of byte count) w = write_fill-write byte count w

-- A writer that owns its memory accepts every sequence of writes whose bytes a `usize` can count, and holds their
-- contents behind what it held, one after the other.
pub run_writes-Appended :
    (calls : List Write) (w : StreamWriter)
    → IsWriter w
    → is_non_owning w.m_storage_type ≡ false
    → w.m_cursor + length (contents calls) < usize_mod
    → (w' : StreamWriter) × (run_writes calls w ≡ ok w') × Appended w (contents calls) w'
unfolding run_writes contents
run_writes-Appended [] w h owns lt = (
  w,
  refl,
  record {
    still = h;
    content = sym (append-nil (written w));
    same_storage = refl;
    same_path = refl;
  },
)
run_writes-Appended (c ∷ calls) w h owns lt =
    let sum = length-append (content_of c) (contents calls) in
    let (w1, first, put1) = write-Appended (content_of c) w h owns (omega (arith, sum)) in
    let moved : w1.m_cursor ≡ w.m_cursor + length (content_of c) = omega (
      arith,
      length-written w1 put1.still,
      ap length put1.content,
      length-append (written w) (content_of c),
      length-written w h,
    ) in
    let (w', rest, put) =
      run_writes-Appended calls w1 put1.still (ap is_non_owning put1.same_storage ∙ owns)
        (omega (arith, sum)) in
    (
      w',
      rw (one_write-content c w ∙ first) rest,
      record {
        still = put.still;
        content =
            put.content
            ∙ ap (λ t. t ++ contents calls) put1.content
            ∙ append_assoc (written w) (content_of c) (contents calls);
        same_storage = put.same_storage ∙ put1.same_storage;
        same_path = put.same_path ∙ put1.same_path;
      },
    )

pub vector_writer-IsWriter : IsWriter vector_writer
unfolding vector_writer
vector_writer-IsWriter = record {
  size_is = refl;
  cursor_le = omega arith;
  capacity_lt = omega arith;
}

-- From the beginning.
pub run_writes-vector_writer :
    (calls : List Write)
    → length (contents calls) < usize_mod
    → (w : StreamWriter) × (run_writes calls vector_writer ≡ ok w) × (written w ≡ contents calls)
unfolding vector_writer is_non_owning
run_writes-vector_writer calls lt =
    let (w, ran, put) =
      run_writes-Appended calls vector_writer vector_writer-IsWriter refl (omega arith) in
    (w, ran, put.content ∙ ap (λ t. t ++ contents calls) (written-take vector_writer))

-- A writer over a span appends exactly the texts that fit behind its cursor; for any other it reports the overflow,
-- and the span keeps its length. The text's length does not pass what a `usize` can count.
pub write-span :
    (bytes : Bytes) (w : StreamWriter)
    → IsWriter w
    → is_non_owning w.m_storage_type ≡ true
    → w.m_cursor + length bytes < usize_mod
    → ((w.m_cursor + length bytes ≤ w.m_capacity)
        × ((w' : StreamWriter) × (write bytes w ≡ ok w')
            × Appended w bytes w'
            × (w'.m_capacity ≡ w.m_capacity)))
      ⊎ ((w.m_capacity < w.m_cursor + length bytes) × (write bytes w ≡ err buffer_overflow))
unfolding write make_room
write-span bytes w h span lt =
    let small : (w.m_cursor + length bytes) % usize_mod ≡ w.m_cursor + length bytes = omega arith in
    elim (Bool-cases (ltb w.m_capacity (w.m_cursor + length bytes))) [
      | inl over ↦ inr (ground arith, rw (small, over, span))
      | inr under ↦
          let room : w.m_cursor + length bytes ≤ w.m_capacity = ground arith in
          inl (
            room,
            (
              copied bytes w,
              rw (small, under) (copy_at_cursor-ok bytes w h room),
              copied-Appended bytes w h room,
              capacity-copied bytes w,
            ),
          )
    ]
