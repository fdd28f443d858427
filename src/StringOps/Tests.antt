-- ===== src/StringOps/Tests.antt =====
-- StringOps.cpp: base64 by evaluation, and the theorems at concrete inputs.
use iacore.Base.{◌≡◌, refl, [], ◌∷◌, codes, arith}
use iacore.StringOps.{
  encode_base64, decode_base64, is_base64, get_base64_index, first_byte, second_byte, third_byte,
}
use iacore.StringOps.RoundTrip.{decode_base64-encode_base64}

encode_hello : encode_base64 (codes "Hello, World") ≡ codes "SGVsbG8sIFdvcmxk"
unfolding encode_base64
encode_hello = refl

encode_padded : encode_base64 (codes "A") ≡ codes "QQ=="
unfolding encode_base64
encode_padded = refl

decode_stops : decode_base64 (codes "QUJD!QUJD") ≡ codes "ABC"
unfolding decode_base64 is_base64 get_base64_index first_byte second_byte third_byte
decode_stops = refl

decode_base64-encode_base64_example :
    decode_base64 (encode_base64 (255 ∷ 0 ∷ 7 ∷ 128 ∷ [])) ≡ 255 ∷ 0 ∷ 7 ∷ 128 ∷ []
decode_base64-encode_base64_example =
    decode_base64-encode_base64 (255 ∷ 0 ∷ 7 ∷ 128 ∷ []) (omega arith)
