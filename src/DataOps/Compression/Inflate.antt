-- ===== src/DataOps/Compression/Inflate.antt =====
-- DataOps.cpp: `zlib_inflate` gives the whole of what the stream holds.
use iacore.Base.{
  ℕ, zero, suc, ◌+◌, ◌-◌, ◌*◌, ◌%◌, ◌≤◌, ◌<◌, ◌≡◌, refl, ap, ◌∙◌, some, inl, inr, [], ◌∷◌, ◌++◌,
  append_assoc, Bytes, length, take, drop, ◌==◌, ltb, ◌⊎◌, Bool-cases, length-append, length-take,
  length-drop, ok, arith,
}
use iacore.DataOps.Compression.{
  Zlib, z_ok, z_stream_end, Inflated, uint_mod, inflate_loop, inflate_result, inflate_stream,
  guess_size, zlib_inflate,
}

-- A round of `inflate` that ends the output, and one that fills its room and leaves the rest.
abbrev pub IsLast : (z : Zlib) (left : z.Stream → Bytes) → z.Stream → ℕ → Type 0
IsLast z left zs room =
    ((z.inflate zs room).code ≡ z_stream_end) × ((z.inflate zs room).out ≡ left zs)

abbrev pub IsFilled :
    (z : Zlib) (IsWhole : z.Stream → Type 0) (left : z.Stream → Bytes) → z.Stream → ℕ → Type 0
IsFilled z IsWhole left zs room =
    ((z.inflate zs room).code ≡ z_ok)
    × ((z.inflate zs room).out ≡ take room (left zs))
    × (left (z.inflate zs room).stream ≡ drop room (left zs))
    × IsWhole (z.inflate zs room).stream

-- What zlib documents of `inflate` on a stream whose data are whole and not corrupt, of which `left` is what is left of
-- the output: it gives as much as there is room for, and tells when that was all. When the room is just enough, it may
-- tell so only in another round.
pub record IsInflater (z : Zlib) (IsWhole : z.Stream → Type 0) (left : z.Stream → Bytes)
    : Type 0 where
  pub ends :
      (zs : z.Stream) (room : ℕ) → IsWhole zs → length (left zs) < room → IsLast z left zs room
  pub fills :
      (zs : z.Stream) (room : ℕ)
      → IsWhole zs
      → room < length (left zs)
      → 0 < room
      → IsFilled z IsWhole left zs room
  pub just_fills :
      (zs : z.Stream) (room : ℕ)
      → IsWhole zs
      → room ≡ length (left zs)
      → 0 < room
      → IsLast z left zs room ⊎ IsFilled z IsWhole left zs room

take-drop_append : (n : ℕ) (xs : Bytes) → take n xs ++ drop n xs ≡ xs
take-drop_append zero xs = refl
take-drop_append (suc n) [] = refl
take-drop_append (suc n) (x ∷ xs) = ap (λ t. x ∷ t) (take-drop_append n xs)

module _ (z : Zlib) (IsWhole : z.Stream → Type 0) (left : z.Stream → Bytes)
    (law : IsInflater z IsWhole left) where
  -- The buffer is written from its beginning, and what there is room for behind that is free.
  record IsAt (fuel : ℕ) (zs : z.Stream) (written : Bytes) (size avail_out : ℕ) : Type 0 where
    whole : IsWhole zs
    free : avail_out + length written ≡ size
    some_room : 0 < size
    enough : length (left zs) < fuel
    fits : length written + length (left zs) < uint_mod

  Whole : ℕ → Type 0
  Whole fuel =
      (zs : z.Stream) (written : Bytes) (size avail_out : ℕ)
      → IsAt fuel zs written size avail_out
      → inflate_loop z fuel zs written size avail_out ≡ some (z_stream_end, written ++ left zs)

  one_round :
      (zs : z.Stream) (room : ℕ)
      → IsWhole zs
      → 0 < room
      → IsLast z left zs room ⊎ (IsFilled z IsWhole left zs room × (room ≤ length (left zs)))
  one_round zs room whole pos = elim (Bool-cases (ltb (length (left zs)) room)) [
    | inl all ↦ inl (law.ends zs room whole (ground arith))
    | inr some_left ↦ elim (Bool-cases (ltb room (length (left zs)))) [
      | inl more ↦ inr (law.fills zs room whole (ground arith) pos, ground arith)
      | inr same ↦ elim (law.just_fills zs room whole (ground arith) pos) [
        | inl last ↦ inl last
        | inr filled ↦ inr (filled, ground arith)
      ]
    ]
  ]

  -- What is left for the rounds behind one that fills its room.
  later_IsAt :
      (fuel : ℕ) (zs : z.Stream) (written : Bytes) (size room : ℕ) (r : Inflated z.Stream)
      → IsWhole r.stream
      → room + length written ≡ size
      → 0 < room
      → room ≤ length (left zs)
      → length (left zs) < suc fuel
      → length written + length (left zs) < uint_mod
      → r.out ≡ take room (left zs)
      → left r.stream ≡ drop room (left zs)
      → IsAt fuel r.stream (written ++ r.out) size (room - length r.out)
  later_IsAt fuel zs written size room r whole free pos more enough fits out rest =
      let out_length = ap length out ∙ length-take room (left zs) in
      let rest_length = ap length rest ∙ length-drop room (left zs) in
      let all_length = length-append written r.out in
      record {
        whole = whole;
        free = omega (arith, out_length, all_length);
        some_room = omega arith;
        enough = omega (arith, rest_length);
        fits = omega (arith, rest_length, out_length, all_length);
      }

  all_left :
      (zs : z.Stream) (written : Bytes) (room : ℕ) (r : Inflated z.Stream)
      → r.out ≡ take room (left zs)
      → left r.stream ≡ drop room (left zs)
      → (written ++ r.out) ++ left r.stream ≡ written ++ left zs
  all_left zs written room r out rest =
      append_assoc written r.out (left r.stream)
      ∙ ap (λ t. written ++ t)
          (ap (λ o. o ++ left r.stream) out
            ∙ ap (λ t. take room (left zs) ++ t) rest
            ∙ take-drop_append room (left zs))

  inflate_loop-Whole : (fuel : ℕ) → Whole fuel
  unfolding Whole inflate_loop
  inflate_loop-Whole zero zs written size avail_out at = absurd (omega (arith, at.enough))
  inflate_loop-Whole (suc fuel) zs written size avail_out at = elim (Bool-cases (avail_out == 0)) [
    | inl full ↦
        let room : ℕ = (size * 2 - length written) % uint_mod in
        let free : room + length written ≡ size * 2 = ground (arith, at.free, at.fits, full) in
        let pos : 0 < room = ground (arith, at.free, at.some_room, at.fits, full) in
        let r = z.inflate zs room in
        rw full (elim (one_round zs room at.whole pos) [
          | inl (code, out) ↦ rw (code, out) refl
          | inr ((code, out, rest, whole), le) ↦ rw code (
              inflate_loop-Whole fuel r.stream (written ++ r.out) (size * 2) (room - length r.out) (
                later_IsAt fuel zs written (size * 2) room r whole free pos le at.enough at.fits out
                  rest)
              ∙ ap (λ b. some (z_stream_end, b)) (all_left zs written room r out rest))
        ])
    | inr part ↦
        let room : ℕ = avail_out in
        let free : room + length written ≡ size = at.free in
        let pos : 0 < room = ground (arith, part) in
        let r = z.inflate zs room in
        rw part (elim (one_round zs room at.whole pos) [
          | inl (code, out) ↦ rw (code, out) refl
          | inr ((code, out, rest, whole), le) ↦ rw code (
              inflate_loop-Whole fuel r.stream (written ++ r.out) size (room - length r.out) (
                later_IsAt fuel zs written size room r whole free pos le at.enough at.fits out rest)
              ∙ ap (λ b. some (z_stream_end, b)) (all_left zs written room r out rest))
        ])
  ]

  -- For compressed data that are whole and not corrupt, with the room that is first guessed, when the data are not empty and neither the guess nor the whole
  -- output has 2 ^ 32 bytes, `zlib_inflate` returns, within one round more than the output has bytes, and gives
  -- the whole output of the stream.
  pub zlib_inflate-whole :
      (bytes : Bytes) (zs : z.Stream) (fuel : ℕ)
      → 0 < length bytes
      → z.inflate_init bytes (length bytes) ≡ some zs
      → IsWhole zs
      → length bytes * 4 < uint_mod
      → length (left zs) < uint_mod
      → length (left zs) < fuel
      → zlib_inflate z fuel bytes ≡ some (ok (left zs))
  unfolding zlib_inflate inflate_stream inflate_result guess_size Whole
  zlib_inflate-whole bytes zs fuel pos init valid small fits enough =
      let n = length bytes in
      let same : n % uint_mod ≡ n = omega arith in
      let guess = guess_size z n in
      let whole = inflate_loop-Whole fuel zs [] guess (guess % uint_mod) (record {
        whole = valid;
        free = ground arith;
        some_room = ground arith;
        enough = enough;
        fits = omega arith;
      }) in
      rw (same, init, whole) refl
