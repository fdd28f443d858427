-- ===== src/Stream/Reader/Reads.antt =====
-- StreamReader.hpp: a read takes the next bytes or reports the end, and what was written is read back.
use mathlib.Core.List.{flatten}
use iacore.Base.{
  ℕ, ◌+◌, ◌-◌, ◌%◌, ◌≤◌, ◌<◌, ◌≡◌, refl, sym, ap, ◌∙◌, true, false, ◌⊎◌, inl, inr, List, [], ◌∷◌,
  ◌++◌, append_assoc, map, Bytes, length, take, drop, length-append, length-drop, ltb, leb,
  Bool-cases, Result, ok, err, ◌>>=◌, arith,
}
use iacore.Stream.Sequences.{take-append_le, take-all, drop-append, drop-drop}
use iacore.Stream.Writer.{usize_mod, StreamWriter, vector_writer}
use iacore.Stream.Writer.Appends.{written}
use iacore.Stream.Writer.Writes.{Write, content_of, contents, run_writes, run_writes-vector_writer}
use iacore.Stream.Reader.{
  StorageType, non_owning, StreamReader, ReaderError, unexpected_eof, past_end, reader_over, read,
  skip, seek, remaining, is_eof,
}

-- The memory has the size that the reader believes, and the cursor is inside.
pub record IsReader (r : StreamReader) : Type 0 where
  pub size_is : length r.m_data ≡ r.m_data_size
  pub cursor_le : r.m_cursor ≤ r.m_data_size
  pub size_lt : r.m_data_size < usize_mod

-- The bytes that are still to be read.
pub rest : StreamReader → Bytes
rest r = drop r.m_cursor r.m_data

-- The reader behind the next `size` bytes.
advanced : ℕ → StreamReader → StreamReader
advanced size r = record r { m_cursor = r.m_cursor + size }

pub length-rest : (r : StreamReader) → IsReader r → r.m_cursor + length (rest r) ≡ r.m_data_size
unfolding rest
length-rest r h = omega (arith, length-drop r.m_cursor r.m_data, h.size_is, h.cursor_le)

pub remaining-rest : (r : StreamReader) → IsReader r → remaining r ≡ length (rest r)
unfolding remaining
remaining-rest r h = omega (arith, length-rest r h, h.size_lt)

advanced-IsReader :
    (size : ℕ) (r : StreamReader)
    → IsReader r
    → r.m_cursor + size ≤ r.m_data_size
    → IsReader (advanced size r)
unfolding advanced
advanced-IsReader size r h le = record { size_is = h.size_is; cursor_le = le; size_lt = h.size_lt }

rest-advanced : (size : ℕ) (r : StreamReader) → rest (advanced size r) ≡ drop size (rest r)
unfolding rest advanced
rest-advanced size r = sym (drop-drop r.m_cursor size (r.m_cursor + size) r.m_data refl)

-- A read whose size does not pass what a `usize` can count takes the next bytes when that many are left, and leaves
-- the reader behind them; for more it reports the end of the data.
pub read_lem :
    (size : ℕ) (r : StreamReader)
    → IsReader r
    → r.m_cursor + size < usize_mod
    → ((size ≤ length (rest r))
        × ((r' : StreamReader) × (read size r ≡ ok (take size (rest r), r'))
            × IsReader r'
            × (rest r' ≡ drop size (rest r))))
      ⊎ ((length (rest r) < size) × (read size r ≡ err unexpected_eof))
unfolding read advanced rest
read_lem size r h lt =
    let left = length-rest r h in
    let small : (r.m_cursor + size) % usize_mod ≡ r.m_cursor + size = omega arith in
    elim (Bool-cases (ltb r.m_data_size (r.m_cursor + size))) [
      | inl over ↦ inr (ground arith, rw (small, over))
      | inr under ↦
          let inside : r.m_cursor + size ≤ r.m_data_size = ground arith in
          let fits : leb (r.m_cursor + size) (length r.m_data) ≡ true = ground (arith, h.size_is) in
          inl (
            omega arith,
            (
              advanced size r,
              rw (small, under, fits),
              advanced-IsReader size r h inside,
              rest-advanced size r,
            ),
          )
    ]

-- Reads of the given sizes, one after the other.
pub read_sizes : List ℕ → StreamReader → Result ReaderError (List Bytes × StreamReader)
read_sizes [] r = ok ([], r)
read_sizes (size ∷ sizes) r = read size r >>= λ first.
    read_sizes sizes first.1 >>= λ others. ok (first.0 ∷ others.0, others.1)

pub lengths : List Bytes → List ℕ
lengths [] = []
lengths (part ∷ parts) = length part ∷ lengths parts

-- One part at the front of what is left.
read-part :
    (part more : Bytes) (r : StreamReader)
    → IsReader r
    → rest r ≡ part ++ more
    → (r' : StreamReader) × (read (length part) r ≡ ok (part, r')) × IsReader r' × (rest r' ≡ more)
read-part part more r h e =
    let count = ap length e ∙ length-append part more in
    elim (read_lem (length part) r h (omega (arith, count, length-rest r h, h.size_lt))) [
      | inl (enough, (r', done, holds, behind)) ↦
          let front : take (length part) (rest r) ≡ part =
            ap (take (length part)) e
            ∙ take-append_le (length part) part more (omega arith)
            ∙ take-all (length part) part (omega arith) in
          let back : drop (length part) (rest r) ≡ more =
            ap (drop (length part)) e ∙ drop-append part more (length part) 0 (omega arith) in
          (r', done ∙ ap (λ t. ok (t, r')) front, holds, behind ∙ back)
      | inr (short, _) ↦ absurd (omega (arith, count))
    ]

-- A reader in front of some parts reads each of them with its own length, and is then behind them.
pub read_sizes-lengths :
    (parts : List Bytes) (tail : Bytes) (r : StreamReader)
    → IsReader r
    → rest r ≡ flatten parts ++ tail
    → (r' : StreamReader) × (read_sizes (lengths parts) r ≡ ok (parts, r'))
      × IsReader r'
      × (rest r' ≡ tail)
unfolding read_sizes lengths flatten
read_sizes-lengths [] tail r h e = (r, refl, h, e)
read_sizes-lengths (part ∷ parts) tail r h e =
    let (r1, first, h1, e1) =
      read-part part (flatten parts ++ tail) r h (e ∙ append_assoc part (flatten parts) tail) in
    let (r', others, h', e') = read_sizes-lengths parts tail r1 h1 e1 in
    (r', rw first (rw others), h', e')

pub reader_over-IsReader :
    (storage : StorageType) (bytes : Bytes)
    → length bytes < usize_mod
    → IsReader (reader_over storage bytes)
unfolding reader_over
reader_over-IsReader storage bytes lt = record {
  size_is = refl;
  cursor_le = omega arith;
  size_lt = lt;
}

rest-reader_over :
    (storage : StorageType) (bytes : Bytes) → rest (reader_over storage bytes) ≡ bytes
unfolding reader_over rest
rest-reader_over storage bytes = refl

at_end : (r : StreamReader) → IsReader r → rest r ≡ [] → is_eof r ≡ true
unfolding is_eof
at_end r h e = ground (arith, length-rest r h, ap length e)

contents-flatten : (calls : List Write) → contents calls ≡ flatten (map content_of calls) ++ []
unfolding contents flatten
contents-flatten [] = refl
contents-flatten (c ∷ calls) =
    ap (λ t. content_of c ++ t) (contents-flatten calls)
    ∙ sym (append_assoc (content_of c) (flatten (map content_of calls)) [])

-- A new writer accepts every sequence of writes whose bytes a `usize` can count, and a reader over what it holds
-- reads the content of each of them, in order and with its own length, and is then at the end.
pub read_sizes-run_writes :
    (calls : List Write)
    → length (contents calls) < usize_mod
    → (w : StreamWriter) × (run_writes calls vector_writer ≡ ok w)
      × ((r : StreamReader) × (read_sizes
              (lengths (map content_of calls))
              (reader_over non_owning (written w))
            ≡ ok (map content_of calls, r))
          × (is_eof r ≡ true))
read_sizes-run_writes calls lt =
    let (w, ran, content) = run_writes-vector_writer calls lt in
    let small : length (written w) < usize_mod = omega (arith, ap length content) in
    let (r, done, holds, behind) =
      read_sizes-lengths (map content_of calls) [] (reader_over non_owning (written w))
        (reader_over-IsReader non_owning (written w) small)
        (rest-reader_over non_owning (written w) ∙ content ∙ contents-flatten calls) in
    (w, ran, (r, done, at_end r holds behind))

-- `seek` keeps the cursor inside the data, whatever position it is given.
pub seek-IsReader : (pos : ℕ) (r : StreamReader) → IsReader r → IsReader (seek pos r)
unfolding seek
seek-IsReader pos r h = record {
  size_is = h.size_is;
  cursor_le = ground (arith, h.cursor_le);
  size_lt = h.size_lt;
}

-- `skip` keeps the cursor inside the data, also when its sum wraps.
pub skip-IsReader : (amount : ℕ) (r : StreamReader) → IsReader r → IsReader (skip amount r)
unfolding skip
skip-IsReader amount r h = record {
  size_is = h.size_is;
  cursor_le = omega (arith, h.cursor_le);
  size_lt = h.size_lt;
}

-- Skipping `2 ^ 64 - k` bytes moves a cursor that is at `k` or behind it back by `k`, since the sum wraps.
pub skip-back :
    (k : ℕ) (r : StreamReader)
    → IsReader r
    → 0 < k
    → k ≤ r.m_cursor
    → (skip (usize_mod - k) r).m_cursor ≡ r.m_cursor - k
unfolding skip
skip-back k r h pos le = omega (arith, h.cursor_le, h.size_lt)

-- Behind the first byte the end of the data is not noticed for sizes near `2 ^ 64`: a read of `2 ^ 64 - k` bytes with
-- `k` at most the cursor passes the check, and its copy passes the end of the memory.
pub read-past_end :
    (k : ℕ) (r : StreamReader)
    → IsReader r
    → 0 < k
    → k ≤ r.m_cursor
    → read (usize_mod - k) r ≡ err past_end
unfolding read
read-past_end k r h pos le =
    let wrapped : (r.m_cursor + (usize_mod - k)) % usize_mod ≡ r.m_cursor - k =
      omega (arith, h.cursor_le, h.size_lt) in
    let unnoticed : ltb r.m_data_size (r.m_cursor - k) ≡ false = ground (arith, h.cursor_le) in
    let outside : leb (r.m_cursor + (usize_mod - k)) (length r.m_data) ≡ false =
      ground (arith, h.cursor_le, h.size_is, h.size_lt) in
    rw (wrapped, unnoticed, outside)
