-- ===== src/DataOps/Compression.antt =====
-- Src/IACore/imp/cpp/DataOps.cpp: the functions that compress and decompress. zlib and zstd are the
-- parameters `Zlib` and `Zstd`; the output buffer is its size and the bytes that are written to it.
-- The law is in Compression/Inflate.
pub mod Inflate
mod Tests
use iacore.Base.{
  ℕ, zero, suc, ◌+◌, ◌-◌, ◌*◌, ◌%◌, ◌^◌, Bool, true, false, not, Option, none, some, [], ◌∷◌, ◌++◌,
  Bytes, length, take, replicate, ltb, ◌==◌, if◌then◌else◌, Result, ok, err,
}

pub data ZipError : Type 0 where
  init_failed inflate_failed deflate_failed invalid_frame zstd_failed : ZipError

-- What `inflate` returns: `Z_OK`, `Z_STREAM_END`, or another code.
pub data ZlibCode : Type 0 where
  z_ok z_stream_end z_other : ZlibCode

pub record Inflated (Stream : Type 0) : Type 0 where
  pub code : ZlibCode
  pub out : Bytes
  pub stream : Stream

-- `inflateInit2` with the input (`avail_in` is a `u32`), `inflate` with so much room, and one
-- `deflate` of the whole input with so much room.
pub record Zlib : Type 1 where
  pub Stream : Type 0
  pub inflate_init : Bytes → (avail_in : ℕ) → Option Stream
  pub inflate : Stream → (avail_out : ℕ) → Inflated Stream
  pub deflate_init : (gzip : Bool) → Bool
  pub deflate_bound : (gzip : Bool) → ℕ → ℕ
  pub deflate : (gzip : Bool) → Bytes → (avail_out : ℕ) → ZlibCode × Bytes

abbrev pub uint_mod : ℕ
uint_mod = 2 ^ 32

module _ (z : Zlib) where
  -- The loop of `zlib_inflate`; `written` is what is in the buffer of `size` bytes, so its length is
  -- `total_out`. `none` if it is not over within `fuel` rounds.
  unfoldable pub inflate_loop :
      ℕ → z.Stream → (written : Bytes) → (size avail_out : ℕ) → Option (ZlibCode × Bytes)
  inflate_loop zero zs written size avail_out = none
  inflate_loop (suc fuel) zs written size avail_out =
      let new_size = if avail_out == 0 then size * 2 else size in
      let room = if avail_out == 0 then (size * 2 - length written) % uint_mod else avail_out in
      let r = z.inflate zs room in
      let later = inflate_loop fuel r.stream (written ++ r.out) new_size (room - length r.out) in
      by_code r.code (written ++ r.out) later
    where
      by_code : ZlibCode → Bytes → Option (ZlibCode × Bytes) → Option (ZlibCode × Bytes)
      by_code z_ok bytes later = later
      by_code z_stream_end bytes later = some (z_stream_end, bytes)
      by_code z_other bytes later = some (z_other, bytes)

  unfoldable pub guess_size : ℕ → ℕ
  guess_size n = if ltb n 1024 then n * 4 else n * 2

  unfoldable pub inflate_result : Option (ZlibCode × Bytes) → Option (Result ZipError Bytes)
  inflate_result none = none
  inflate_result (some (z_ok, bytes)) = some (err inflate_failed)
  inflate_result (some (z_stream_end, bytes)) = some (ok bytes)
  inflate_result (some (z_other, bytes)) = some (err inflate_failed)

  unfoldable pub inflate_stream : ℕ → Option z.Stream → ℕ → Option (Result ZipError Bytes)
  unfolding inflate_loop guess_size inflate_result
  inflate_stream fuel none n = some (err init_failed)
  inflate_stream fuel (some zs) n =
      inflate_result (inflate_loop fuel zs [] (guess_size n) (guess_size n % uint_mod))

  unfoldable pub zlib_inflate : ℕ → Bytes → Option (Result ZipError Bytes)
  unfolding inflate_stream
  zlib_inflate fuel bytes =
      inflate_stream fuel (z.inflate_init bytes (length bytes % uint_mod)) (length bytes)

  unfoldable pub gzip_inflate : ℕ → Bytes → Option (Result ZipError Bytes)
  unfolding zlib_inflate
  gzip_inflate fuel bytes = zlib_inflate fuel bytes

  pub deflated : ZlibCode × Bytes → Result ZipError Bytes
  deflated (z_ok, bytes) = err deflate_failed
  deflated (z_stream_end, bytes) = ok bytes
  deflated (z_other, bytes) = err deflate_failed

  pub zlib_deflate : Bytes → Result ZipError Bytes
  unfolding deflated
  zlib_deflate bytes =
      if not (z.deflate_init false)
      then err init_failed
      else deflated (z.deflate false bytes (z.deflate_bound false (length bytes) % uint_mod))

  pub gzip_deflate : Bytes → Result ZipError Bytes
  unfolding deflated
  gzip_deflate bytes =
      if not (z.deflate_init true)
      then err init_failed
      else deflated (z.deflate true bytes ((z.deflate_bound true (length bytes) + 1024) % uint_mod))

-- `ZSTD_getFrameContentSize`, `ZSTD_decompress` and `ZSTD_decompressStream` into so much room (`none`
-- for an error; the stream tells whether it is at its end), `ZSTD_compressBound` and `ZSTD_compress`.
pub data ContentSize : Type 0 where
  size_error size_unknown : ContentSize
  size_known : ℕ → ContentSize

pub record Zstd : Type 1 where
  pub Context : Type 0
  pub content_size : Bytes → ContentSize
  pub decompress : Bytes → (room : ℕ) → Option Bytes
  pub new_context : Bytes → Context
  pub decompress_stream : Context → (room : ℕ) → Option (Bool × (Bytes × Context))
  pub compress_bound : ℕ → ℕ
  pub compress : Bytes → (room : ℕ) → Option Bytes

module _ (z : Zstd) where
  -- The loop of `zstd_inflate`; the buffer is doubled when it is full.
  pub stream_loop : ℕ → z.Context → (written : Bytes) → (size : ℕ) → Option (Result ZipError Bytes)
  stream_loop zero c written size = none
  stream_loop (suc fuel) c written size =
      after (stream_loop fuel) (z.decompress_stream c (size - length written))
    where
      after :
          (z.Context → Bytes → ℕ → Option (Result ZipError Bytes))
          → Option (Bool × (Bytes × z.Context))
          → Option (Result ZipError Bytes)
      after go_on none = some (err zstd_failed)
      after go_on (some (true, (out, c'))) = some (ok (written ++ out))
      after go_on (some (false, (out, c'))) =
          go_on c' (written ++ out) (if length (written ++ out) == size then size * 2 else size)

  -- The vector that was resized to `size`, with the bytes that were written to it.
  pub in_buffer : ℕ → Option Bytes → Result ZipError Bytes
  in_buffer size none = err zstd_failed
  in_buffer size (some out) = ok (out ++ replicate (size - length out) 0)

  pub zstd_inflate : ℕ → Bytes → Option (Result ZipError Bytes)
  unfolding stream_loop in_buffer
  zstd_inflate fuel bytes = by_size (z.content_size bytes)
    where
      by_size : ContentSize → Option (Result ZipError Bytes)
      by_size size_error = some (err invalid_frame)
      by_size (size_known size) = some (in_buffer size (z.decompress bytes size))
      by_size size_unknown = stream_loop fuel (z.new_context bytes) [] (length bytes * 2)

  pub zstd_deflate : Bytes → Result ZipError Bytes
  zstd_deflate bytes = compressed (z.compress bytes (z.compress_bound (length bytes)))
    where
      compressed : Option Bytes → Result ZipError Bytes
      compressed none = err zstd_failed
      compressed (some out) = ok out
