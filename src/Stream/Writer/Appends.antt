-- ===== src/Stream/Writer/Appends.antt =====
-- StreamWriter.cpp: a write appends to what was written.
use iacore.Base.{
  ℕ, ◌+◌, ◌-◌, ◌*◌, ◌%◌, ◌≤◌, ◌<◌, ◌≡◌, refl, ap, ◌∙◌, true, false, ◌++◌, Bytes, length, take, drop,
  replicate, length-append, length-take, length-drop, length-replicate, ltb, leb, if◌then◌else◌,
  Bool-cases, inl, inr, ok, arith,
}
use iacore.Stream.Sequences.{take-append, take-append_le, take-all}
use iacore.Stream.Writer.{
  usize_mod, is_non_owning, StreamWriter, resize, make_room, copy_at_cursor, write, write_fill,
}

-- What was written: the bytes before the cursor.
pub written : StreamWriter → Bytes
written w = take w.m_cursor w.m_buffer

-- The memory has the capacity that the writer believes, and the cursor is inside.
pub record IsWriter (w : StreamWriter) : Type 0 where
  pub size_is : length w.m_buffer ≡ w.m_capacity
  pub cursor_le : w.m_cursor ≤ w.m_capacity
  pub capacity_lt : w.m_capacity < usize_mod

-- A write has appended `bytes` to `w` and left `w'`.
pub record Appended (w : StreamWriter) (bytes : Bytes) (w' : StreamWriter) : Type 0 where
  pub still : IsWriter w'
  pub content : written w' ≡ written w ++ bytes
  pub same_storage : w'.m_storage_type ≡ w.m_storage_type
  pub same_path : w'.m_file_path ≡ w.m_file_path

length-resize : (n : ℕ) (bytes : Bytes) → length (resize n bytes) ≡ n
unfolding resize
length-resize n bytes = omega (
  arith,
  length-append (take n bytes) (replicate (n - length bytes) 0),
  length-take n bytes,
  length-replicate {A = ℕ} (n - length bytes) 0,
)

take-resize :
    (k n : ℕ) (bytes : Bytes)
    → k ≤ length bytes
    → length bytes ≤ n
    → take k (resize n bytes) ≡ take k bytes
unfolding resize
take-resize k n bytes h g = rw (take-all n bytes g) (take-append_le k bytes _ h)

-- What the memory is after the copy.
overwrite : ℕ → Bytes → Bytes → Bytes
overwrite c bytes buffer = take c buffer ++ (bytes ++ drop (c + length bytes) buffer)

length-overwrite :
    (c : ℕ) (bytes buffer : Bytes)
    → c + length bytes ≤ length buffer
    → length (overwrite c bytes buffer) ≡ length buffer
unfolding overwrite
length-overwrite c bytes buffer h = omega (
  arith,
  length-append (take c buffer) (bytes ++ drop (c + length bytes) buffer),
  length-append bytes (drop (c + length bytes) buffer),
  length-take c buffer,
  length-drop (c + length bytes) buffer,
)

take-overwrite :
    (c : ℕ) (bytes buffer : Bytes)
    → c + length bytes ≤ length buffer
    → take (c + length bytes) (overwrite c bytes buffer) ≡ take c buffer ++ bytes
unfolding overwrite
take-overwrite c bytes buffer h =
    let before : c ≡ length (take c buffer) = omega (arith, length-take c buffer) in
    let rest = bytes ++ drop (c + length bytes) buffer in
    take-append (take c buffer) rest (c + length bytes) (length bytes) (omega arith)
    ∙ ap (λ t. take c buffer ++ t)
        (take-append_le (length bytes) bytes (drop (c + length bytes) buffer) (omega arith)
          ∙ take-all (length bytes) bytes (omega arith))

pub copied : Bytes → StreamWriter → StreamWriter
unfolding overwrite
copied bytes w = record w {
  m_buffer = overwrite w.m_cursor bytes w.m_buffer;
  m_cursor = w.m_cursor + length bytes;
}

pub copy_at_cursor-ok :
    (bytes : Bytes) (w : StreamWriter)
    → IsWriter w
    → w.m_cursor + length bytes ≤ w.m_capacity
    → copy_at_cursor bytes w ≡ ok (copied bytes w)
unfolding copy_at_cursor copied overwrite
copy_at_cursor-ok bytes w h room =
    let fits : leb (w.m_cursor + length bytes) (length w.m_buffer) ≡ true =
      ground (arith, h.size_is) in
    let small : (w.m_cursor + length bytes) % usize_mod ≡ w.m_cursor + length bytes =
      omega (arith, h.capacity_lt) in
    rw (fits, small)

-- With room for them, the bytes stand behind what was written.
pub copied-Appended :
    (bytes : Bytes) (w : StreamWriter)
    → IsWriter w
    → w.m_cursor + length bytes ≤ w.m_capacity
    → Appended w bytes (copied bytes w)
unfolding copied written
copied-Appended bytes w h room = record {
  still = record {
    size_is = length-overwrite w.m_cursor bytes w.m_buffer (omega (arith, h.size_is)) ∙ h.size_is;
    cursor_le = room;
    capacity_lt = h.capacity_lt;
  };
  content = take-overwrite w.m_cursor bytes w.m_buffer (omega (arith, h.size_is));
  same_storage = refl;
  same_path = refl;
}

-- The writer with the room that `make_room` gives it.
roomy : ℕ → StreamWriter → StreamWriter
roomy n w = record w { m_buffer = resize n w.m_buffer; m_capacity = n }

roomy-IsWriter :
    (n : ℕ) (w : StreamWriter)
    → IsWriter w
    → w.m_capacity ≤ n
    → n < usize_mod
    → IsWriter (roomy n w)
unfolding roomy
roomy-IsWriter n w h g lt = record {
  size_is = length-resize n w.m_buffer;
  cursor_le = omega (arith, h.cursor_le);
  capacity_lt = lt;
}

written-roomy :
    (n : ℕ) (w : StreamWriter) → IsWriter w → w.m_capacity ≤ n → written (roomy n w) ≡ written w
unfolding roomy written
written-roomy n w h g =
    take-resize w.m_cursor n w.m_buffer (omega (arith, h.size_is, h.cursor_le))
      (omega (arith, h.size_is))

-- How much room a writer that owns its memory has after `make_room`.
record HasSpace (size : ℕ) (w : StreamWriter) : Type 0 where
  w' : StreamWriter
  made : make_room size w ≡ ok w'
  holds : IsWriter w'
  enough : w'.m_cursor + size ≤ w'.m_capacity
  content : written w' ≡ written w
  same_storage : w'.m_storage_type ≡ w.m_storage_type
  same_path : w'.m_file_path ≡ w.m_file_path

make_room-HasSpace :
    (size : ℕ) (w : StreamWriter)
    → IsWriter w
    → is_non_owning w.m_storage_type ≡ false
    → w.m_cursor + size < usize_mod
    → HasSpace size w
unfolding make_room roomy
make_room-HasSpace size w h owns lt =
    let small : (w.m_cursor + size) % usize_mod ≡ w.m_cursor + size = omega arith in
    let required = w.m_cursor + size in
    let double_cap = w.m_capacity * 2 % usize_mod in
    let new_capacity = if ltb required double_cap then double_cap else required in
    elim (Bool-cases (ltb w.m_capacity required)) [
      | inl over ↦
          let ge : required ≤ new_capacity = ground arith in
          let grows : w.m_capacity ≤ new_capacity = ground arith in
          let fits : new_capacity < usize_mod = ground arith in
          record {
            w' = roomy new_capacity w;
            made = rw (small, over, owns);
            holds = roomy-IsWriter new_capacity w h grows fits;
            enough = ge;
            content = written-roomy new_capacity w h grows;
            same_storage = refl;
            same_path = refl;
          }
      | inr under ↦ record {
        w' = w;
        made = rw (small, under);
        holds = h;
        enough = ground arith;
        content = refl;
        same_storage = refl;
        same_path = refl;
      }
    ]

-- A writer that owns its memory appends every text that a `usize` can count, growing as needed.
pub write-Appended :
    (bytes : Bytes) (w : StreamWriter)
    → IsWriter w
    → is_non_owning w.m_storage_type ≡ false
    → w.m_cursor + length bytes < usize_mod
    → (w' : StreamWriter) × (write bytes w ≡ ok w') × Appended w bytes w'
unfolding write
write-Appended bytes w h owns lt =
    let room = make_room-HasSpace (length bytes) w h owns lt in
    let put = copied-Appended bytes room.w' room.holds room.enough in
    (
      copied bytes room.w',
      rw (room.made) (copy_at_cursor-ok bytes room.w' room.holds room.enough),
      record {
        still = put.still;
        content = put.content ∙ ap (λ t. t ++ bytes) room.content;
        same_storage = put.same_storage ∙ room.same_storage;
        same_path = put.same_path ∙ room.same_path;
      },
    )

pub write_fill-write :
    (byte count : ℕ) (w : StreamWriter) → write_fill byte count w ≡ write (replicate count byte) w
unfolding write_fill write
write_fill-write byte count w = rw (length-replicate count byte)

pub capacity-copied :
    (bytes : Bytes) (w : StreamWriter) → (copied bytes w).m_capacity ≡ w.m_capacity
unfolding copied
capacity-copied bytes w = refl

pub length-written : (w : StreamWriter) → IsWriter w → length (written w) ≡ w.m_cursor
unfolding written
length-written w h = omega (arith, length-take w.m_cursor w.m_buffer, h.size_is, h.cursor_le)

pub written-take : (w : StreamWriter) → written w ≡ take w.m_cursor w.m_buffer
unfolding written
written-take w = refl
