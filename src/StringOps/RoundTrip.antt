-- ===== src/StringOps/RoundTrip.antt =====
-- StringOps.cpp: decoding base64 text undoes encoding.
use iacore.Base.{
  ℕ, ◌+◌, ◌*◌, ◌/◌, ◌%◌, ◌^◌, ◌<◌, bit_and, bit_or, ◌≡◌, refl, true, false, not, [], ◌∷◌, ◌++◌,
  append_assoc, append-nil, Bytes, IsBytes, ◌==◌, ==→eq, all_below, all_below_sound, bit_and_63,
  bit_and_15, bit_and_3, bit_or_disjoint, arith, not-eq-true, ap, sym, ◌∙◌, set, if◌then◌else◌,
}
use iacore.StringOps.{
  is_base64, get_base64_index, table_char, pad, triple, sextet, encode_base64, first_byte,
  second_byte, third_byte, group_bytes, decode_loop, decode_base64,
}

-- Checks on the 64 characters of the table.
accepted_table : all_below 64 (λ v. is_base64 (table_char v)) ≡ true
unfolding all_below is_base64 table_char
accepted_table = refl

unpadded_table : all_below 64 (λ v. not (table_char v == pad)) ≡ true
unfolding all_below table_char
unpadded_table = refl

index_table : all_below 64 (λ v. get_base64_index (table_char v) == v) ≡ true
unfolding all_below get_base64_index table_char
index_table = refl

mask_30_table : all_below 64 (λ v. bit_and v 0x30 == v / 16 * 16) ≡ true
unfolding all_below
mask_30_table = refl

mask_3c_table : all_below 64 (λ v. bit_and v 0x3C == v / 4 * 4) ≡ true
unfolding all_below
mask_3c_table = refl

mask_30 : (v : ℕ) → v < 64 → bit_and v 0x30 ≡ v / 16 * 16
mask_30 v h = ==→eq _ _ (all_below_sound 64 _ v mask_30_table h)

mask_3c : (v : ℕ) → v < 64 → bit_and v 0x3C ≡ v / 4 * 4
mask_3c v h = ==→eq _ _ (all_below_sound 64 _ v mask_3c_table h)

table_char-accepted : (v : ℕ) → v < 64 → is_base64 (table_char v) ≡ true
table_char-accepted v h = all_below_sound 64 _ v accepted_table h

table_char-ne_pad : (v : ℕ) → v < 64 → (table_char v == pad) ≡ false
table_char-ne_pad v h = not-eq-true _ (all_below_sound 64 _ v unpadded_table h)

get_base64_index-table_char : (v : ℕ) → v < 64 → get_base64_index (table_char v) ≡ v
get_base64_index-table_char v h = ==→eq _ _ (all_below_sound 64 _ v index_table h)

triple_lem : (b0 b1 b2 : ℕ) → b1 < 256 → b2 < 256 → triple b0 b1 b2 ≡ b0 * 65536 + b1 * 256 + b2
unfolding triple
triple_lem b0 b1 b2 h1 h2 = omega (
  arith,
  bit_or_disjoint 16 b0 (b1 * 2 ^ 8) (omega arith),
  bit_or_disjoint 8 (b0 * 2 ^ 8 + b1) b2 h2,
  ap (λ t. bit_or t b2) joined,
)
  where
    joined : bit_or (b0 * 2 ^ 16) (b1 * 2 ^ 8) ≡ (b0 * 2 ^ 8 + b1) * 2 ^ 8
    joined = omega (arith, bit_or_disjoint 16 b0 (b1 * 2 ^ 8) (omega arith))

sextet_lem : (t k : ℕ) → sextet t k ≡ t / 2 ^ k % 64
unfolding sextet
sextet_lem t k = bit_and_63 (t / 2 ^ k)

first_byte_lem : (n0 n1 : ℕ) → n0 < 64 → n1 < 64 → first_byte n0 n1 ≡ n0 * 4 + n1 / 16
unfolding first_byte
first_byte_lem n0 n1 h0 h1 =
    rw (mask_30 n1 h1) (omega (arith, bit_or_disjoint 2 n0 (n1 / 16 * 16 / 16) (omega arith)))

second_byte_lem : (n1 n2 : ℕ) → n2 < 64 → second_byte n1 n2 ≡ n1 % 16 * 16 + n2 / 4
unfolding second_byte
second_byte_lem n1 n2 h2 =
    rw (mask_3c n2 h2, bit_and_15)
      (omega (arith, bit_or_disjoint 4 (n1 % 16) (n2 / 4 * 4 / 4) (omega arith)))

third_byte_lem : (n2 n3 : ℕ) → n3 < 64 → third_byte n2 n3 ≡ n2 % 4 * 64 + n3
unfolding third_byte
third_byte_lem n2 n3 h3 = rw bit_and_3 (omega (arith, bit_or_disjoint 6 (n2 % 4) n3 (omega arith)))

-- One character of the table takes the loop one slot on.
decode_loop_char :
    (v i : ℕ) (rest tmp_buf result : Bytes)
    → v < 64
    → decode_loop (table_char v ∷ rest) i tmp_buf result ≡ (
        let tmp = set tmp_buf i (table_char v) in
        decode_loop rest
          (if i + 1 == 4 then 0 else i + 1)
          tmp
          (if i + 1 == 4 then result ++ group_bytes tmp else result))
unfolding decode_loop
decode_loop_char v i rest tmp_buf result h = rw (table_char-ne_pad v h, table_char-accepted v h)

-- Four characters of the table take the loop over a whole group.
decode_loop_group :
    (v0 v1 v2 v3 a b c d : ℕ) (rest result : Bytes)
    → v0 < 64
    → v1 < 64
    → v2 < 64
    → v3 < 64
    → decode_loop
        (table_char v0 ∷ table_char v1 ∷ table_char v2 ∷ table_char v3 ∷ rest)
        0
        (a ∷ b ∷ c ∷ d ∷ [])
        result
      ≡ decode_loop rest 0
          (table_char v0 ∷ table_char v1 ∷ table_char v2 ∷ table_char v3 ∷ [])
          (result ++ (first_byte v0 v1 ∷ second_byte v1 v2 ∷ third_byte v2 v3 ∷ []))
decode_loop_group v0 v1 v2 v3 a b c d rest result h0 h1 h2 h3 =
    rw (decode_loop_char v0 0 _ _ result h0) (
      rw (decode_loop_char v1 1 _ _ result h1) (
        rw (decode_loop_char v2 2 _ _ result h2) (
          rw (decode_loop_char v3 3 rest _ result h3) (
            rw (
              get_base64_index-table_char v0 h0,
              get_base64_index-table_char v1 h1,
              get_base64_index-table_char v2 h2,
              get_base64_index-table_char v3 h3,
            )))))

-- The three bytes of a round, from its four sextets.
module _ (b0 b1 b2 : ℕ) (h0 : b0 < 256) (h1 : b1 < 256) (h2 : b2 < 256) where
  round_first : first_byte (sextet (triple b0 b1 b2) 18) (sextet (triple b0 b1 b2) 12) ≡ b0
  round_first =
      rw (sextet_lem, sextet_lem, triple_lem b0 b1 b2 h1 h2)
        (omega (
          arith,
          first_byte_lem ((b0 * 65536 + b1 * 256 + b2) / 2 ^ 18 % 64)
              ((b0 * 65536 + b1 * 256 + b2) / 2 ^ 12 % 64) (omega arith) (omega arith),
        ))

  round_second : second_byte (sextet (triple b0 b1 b2) 12) (sextet (triple b0 b1 b2) 6) ≡ b1
  round_second =
      rw (sextet_lem, sextet_lem, triple_lem b0 b1 b2 h1 h2)
        (omega (
          arith,
          second_byte_lem ((b0 * 65536 + b1 * 256 + b2) / 2 ^ 12 % 64)
              ((b0 * 65536 + b1 * 256 + b2) / 2 ^ 6 % 64) (omega arith),
        ))

  round_third : third_byte (sextet (triple b0 b1 b2) 6) (sextet (triple b0 b1 b2) 0) ≡ b2
  round_third =
      rw (sextet_lem, sextet_lem, triple_lem b0 b1 b2 h1 h2)
        (omega (
          arith,
          third_byte_lem ((b0 * 65536 + b1 * 256 + b2) / 2 ^ 6 % 64)
              ((b0 * 65536 + b1 * 256 + b2) / 2 ^ 0 % 64) (omega arith),
        ))

sextet-lt : (t k : ℕ) → sextet t k < 64
sextet-lt t k = rw sextet_lem (omega arith)

-- A group cut short by padding.
decode_loop_two :
    (v0 v1 a b c d : ℕ) (result : Bytes)
    → v0 < 64
    → v1 < 64
    → decode_loop (table_char v0 ∷ table_char v1 ∷ pad ∷ pad ∷ []) 0 (a ∷ b ∷ c ∷ d ∷ []) result
      ≡ result ++ first_byte v0 v1 ∷ []
decode_loop_two v0 v1 a b c d result h0 h1 = rw (decode_loop_char v0 0 _ _ result h0) (
    rw (decode_loop_char v1 1 _ _ result h1) (
      unfold decode_loop in
      rw (get_base64_index-table_char v0 h0, get_base64_index-table_char v1 h1)))

decode_loop_three :
    (v0 v1 v2 a b c d : ℕ) (result : Bytes)
    → v0 < 64
    → v1 < 64
    → v2 < 64
    → decode_loop
        (table_char v0 ∷ table_char v1 ∷ table_char v2 ∷ pad ∷ [])
        0
        (a ∷ b ∷ c ∷ d ∷ [])
        result
      ≡ result ++ (first_byte v0 v1 ∷ second_byte v1 v2 ∷ [])
decode_loop_three v0 v1 v2 a b c d result h0 h1 h2 = rw (decode_loop_char v0 0 _ _ result h0) (
    rw (decode_loop_char v1 1 _ _ result h1) (
      rw (decode_loop_char v2 2 _ _ result h2) (
        unfold decode_loop in
        rw
          (
            get_base64_index-table_char v0 h0,
            get_base64_index-table_char v1 h1,
            get_base64_index-table_char v2 h2,
          )
          (append_assoc result _ _))))

-- The loop on encoded text appends the text's bytes, whatever the four slots hold.
decode_loop-encode_base64 :
    (text : Bytes) (a b c d : ℕ) (result : Bytes)
    → IsBytes text
    → decode_loop (encode_base64 text) 0 (a ∷ b ∷ c ∷ d ∷ []) result ≡ result ++ text
unfolding encode_base64
decode_loop-encode_base64 [] a b c d result h = unfold decode_loop in sym (append-nil result)
decode_loop-encode_base64 (b0 ∷ []) a b c d result h =
    decode_loop_two (sextet (triple b0 0 0) 18) (sextet (triple b0 0 0) 12) a b c d result
      (sextet-lt (triple b0 0 0) 18) (sextet-lt (triple b0 0 0) 12)
    ∙ rw (round_first b0 0 0 h.0 (omega arith) (omega arith))
decode_loop-encode_base64 (b0 ∷ b1 ∷ []) a b c d result h =
    decode_loop_three (sextet (triple b0 b1 0) 18) (sextet (triple b0 b1 0) 12)
      (sextet (triple b0 b1 0) 6) a b c d result (sextet-lt (triple b0 b1 0) 18)
      (sextet-lt (triple b0 b1 0) 12) (sextet-lt (triple b0 b1 0) 6)
    ∙ rw (round_first b0 b1 0 h.0 h.1.0 (omega arith), round_second b0 b1 0 h.0 h.1.0 (omega arith))
decode_loop-encode_base64 (b0 ∷ b1 ∷ b2 ∷ rest) a b c d result (h0, (h1, (h2, hr))) =
    decode_loop_group (sextet (triple b0 b1 b2) 18) (sextet (triple b0 b1 b2) 12)
      (sextet (triple b0 b1 b2) 6) (sextet (triple b0 b1 b2) 0) a b c d (encode_base64 rest) result
      (sextet-lt (triple b0 b1 b2) 18) (sextet-lt (triple b0 b1 b2) 12)
      (sextet-lt (triple b0 b1 b2) 6) (sextet-lt (triple b0 b1 b2) 0)
    ∙ rw
        (
          round_first b0 b1 b2 h0 h1 h2,
          round_second b0 b1 b2 h0 h1 h2,
          round_third b0 b1 b2 h0 h1 h2,
        )
        (decode_loop-encode_base64 rest (table_char (sextet (triple b0 b1 b2) 18))
            (table_char (sextet (triple b0 b1 b2) 12)) (table_char (sextet (triple b0 b1 b2) 6))
            (table_char (sextet (triple b0 b1 b2) 0)) _ hr
          ∙ append_assoc result _ rest)

-- For every sequence of bytes, of any length, decoding its base64 text gives the sequence back.
pub decode_base64-encode_base64 :
    (text : Bytes) → IsBytes text → decode_base64 (encode_base64 text) ≡ text
unfolding decode_base64
decode_base64-encode_base64 text h = decode_loop-encode_base64 text 0 0 0 0 [] h
