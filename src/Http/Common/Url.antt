-- ===== src/Http/Common/Url.antt =====
-- Http/Common.cpp: decoding undoes percent-encoding.
use iacore.Base.{
  ℕ, ◌/◌, ◌%◌, ◌<◌, ◌≡◌, ◌≢◌, refl, sym, ap, ◌∙◌, true, ◌⊎◌, inl, inr, [], ◌∷◌, ◌++◌, append_assoc,
  append-nil, Bytes, IsBytes, All, All-append, ◌==◌, Bool-cases, ==→eq, all_below, all_below_sound,
  arith,
}
use iacore.Http.Common.{
  is_alnum, is_unreserved, upper_hex_digit, url_encode_char, url_encode_loop, url_encode,
  strtol_char, plain_char, url_decode_loop, url_decode,
}

-- Checked on every byte.
strtol_char_table :
    all_below 256 (λ c. strtol_char (upper_hex_digit (c / 16)) (upper_hex_digit (c % 16)) == c)
    ≡ true
unfolding all_below strtol_char upper_hex_digit
strtol_char_table = refl

strtol_char_lem :
    (c : ℕ) → c < 256 → strtol_char (upper_hex_digit (c / 16)) (upper_hex_digit (c % 16)) ≡ c
strtol_char_lem c h = ==→eq _ _ (all_below_sound 256 _ c strtol_char_table h)

unreserved_plain : (c : ℕ) → is_unreserved c ≡ true → (c ≢ b'%') × (plain_char c ≡ c)
unfolding is_unreserved is_alnum plain_char
unreserved_plain c e = (ground arith, ground arith)

-- One plain character takes the loop one place on, whatever stands behind it.
url_decode_loop_plain :
    (c : ℕ) (value result : Bytes)
    → c ≢ b'%'
    → url_decode_loop (c ∷ value) result ≡ url_decode_loop value (result ++ plain_char c ∷ [])
unfolding url_decode_loop
url_decode_loop_plain c [] result h = refl
url_decode_loop_plain c (a ∷ []) result h = refl
url_decode_loop_plain c (a ∷ b ∷ value) result h = ground (arith, h)

url_decode_loop_char :
    (c : ℕ) (value result : Bytes)
    → c < 256
    → url_decode_loop (url_encode_char c ++ value) result ≡ url_decode_loop value (result ++ c ∷ [])
unfolding url_encode_char
url_decode_loop_char c value result h = elim (Bool-cases (is_unreserved c)) [
  | inl kept ↦
      let (ne, same) = unreserved_plain c kept in
      rw kept (
        url_decode_loop_plain c value result ne
        ∙ ap (λ t. url_decode_loop value (result ++ t ∷ [])) same)
  | inr escaped ↦ rw escaped (
      unfold url_decode_loop in
      ap (λ t. url_decode_loop value (result ++ t ∷ [])) (strtol_char_lem c h))
]

url_encode_loop-append :
    (value escaped : Bytes) → url_encode_loop value escaped ≡ escaped ++ url_encode_loop value []
unfolding url_encode_loop
url_encode_loop-append [] escaped = sym (append-nil escaped)
url_encode_loop-append (c ∷ value) escaped =
    url_encode_loop-append value (escaped ++ url_encode_char c)
    ∙ append_assoc escaped (url_encode_char c) (url_encode_loop value [])
    ∙ ap (λ t. escaped ++ t) (sym (url_encode_loop-append value (url_encode_char c)))

url_decode_loop-encode :
    (value result : Bytes)
    → IsBytes value
    → url_decode_loop (url_encode_loop value []) result ≡ result ++ value
unfolding url_encode_loop
url_decode_loop-encode [] result h = unfold url_decode_loop in sym (append-nil result)
url_decode_loop-encode (c ∷ value) result h =
    ap (λ t. url_decode_loop t result) (url_encode_loop-append value (url_encode_char c))
    ∙ url_decode_loop_char c (url_encode_loop value []) result h.0
    ∙ url_decode_loop-encode value (result ++ c ∷ []) h.1
    ∙ append_assoc result (c ∷ []) value

-- Every text of bytes is read back from its percent-encoding.
pub url_decode-url_encode : (value : Bytes) → IsBytes value → url_decode (url_encode value) ≡ value
unfolding url_decode url_encode
url_decode-url_encode value h = url_decode_loop-encode value [] h

-- A character that may stand in an encoded text.
abbrev pub IsUrlChar : ℕ → Type 0
IsUrlChar c = (is_unreserved c ≡ true) ⊎ (c ≡ b'%')

digits_table : all_below 16 (λ v. is_unreserved (upper_hex_digit v)) ≡ true
unfolding all_below is_unreserved upper_hex_digit
digits_table = refl

digit_unreserved : (v : ℕ) → v < 16 → is_unreserved (upper_hex_digit v) ≡ true
digit_unreserved v h = all_below_sound 16 _ v digits_table h

url_encode_char-IsUrlChar : (c : ℕ) → c < 256 → All IsUrlChar (url_encode_char c)
unfolding url_encode_char
url_encode_char-IsUrlChar c h = elim (Bool-cases (is_unreserved c)) [
  | inl kept ↦ rw kept (inl kept, tt)
  | inr escaped ↦ rw escaped (
    inr refl,
    (
      inl (digit_unreserved (c / 16) (omega arith)),
      (inl (digit_unreserved (c % 16) (omega arith)), tt),
    ),
  )
]

url_encode_loop-IsUrlChar :
    (value : Bytes) → IsBytes value → All IsUrlChar (url_encode_loop value [])
unfolding url_encode_loop
url_encode_loop-IsUrlChar [] h = tt
url_encode_loop-IsUrlChar (c ∷ value) h = rw (url_encode_loop-append value (url_encode_char c)) (
    All-append IsUrlChar (url_encode_char c) (url_encode_loop value [])
      (url_encode_char-IsUrlChar c h.0) (url_encode_loop-IsUrlChar value h.1))

-- Encoded text holds only unreserved characters and `%`.
pub url_encode-IsUrlChar : (value : Bytes) → IsBytes value → All IsUrlChar (url_encode value)
unfolding url_encode
url_encode-IsUrlChar value h = url_encode_loop-IsUrlChar value h
