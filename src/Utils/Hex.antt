-- ===== src/Utils/Hex.antt =====
-- Utils.cpp: hexadecimal text and bytes are one and the same, up to the case of the digits.
use mathlib.Core.Path.{ap₂}
use iacore.Base.{
  ℕ, ◌+◌, ◌-◌, ◌*◌, ◌/◌, ◌%◌, ◌<◌, ◌≡◌, refl, ap, sym, ◌∙◌, true, inl, inr, ◌&&◌, Option, none,
  some, [], ◌∷◌, ◌++◌, map, append_assoc, append-nil, Bytes, IsBytes, length, get_or, leb, ◌==◌,
  if◌then◌else◌, ok, err, succeeded, Bool-cases, ==→eq, all_below, all_below_sound, bit_and_15,
  bit_or_disjoint, arith,
}
use iacore.Utils.{
  HexError, from_hex_char, hex_lut, high_digit, low_digit, hex_digits_loop, binary_to_hex_string,
  join_nibbles, push_pair, hex_pairs_loop, hex_string_to_binary,
}

abbrev pub digit : ℕ → ℕ
digit v = get_or hex_lut v 0

digit_table : all_below 16 (λ v. digit v == (if leb v 9 then b'0' + v else b'A' + v - 10)) ≡ true
unfolding all_below
digit_table = refl

digit_lem : (v : ℕ) → v < 16 → digit v ≡ (if leb v 9 then b'0' + v else b'A' + v - 10)
digit_lem v h = ==→eq _ _ (all_below_sound 16 _ v digit_table h)

from_hex_char-digit : (v : ℕ) → v < 16 → from_hex_char (digit v) ≡ some v
unfolding from_hex_char
from_hex_char-digit v h = rw (digit_lem v h) (ground arith)

join_nibbles_lem : (h l : ℕ) → h < 16 → l < 16 → join_nibbles h l ≡ h * 16 + l
unfolding join_nibbles
join_nibbles_lem h l hh hl = omega (arith, bit_or_disjoint 4 h l hl)

high_digit_lem : (b : ℕ) → high_digit b ≡ digit (b / 16 % 16)
unfolding high_digit
high_digit_lem b = rw bit_and_15

low_digit_lem : (b : ℕ) → low_digit b ≡ digit (b % 16)
unfolding low_digit
low_digit_lem b = rw bit_and_15

hex_digits_loop-append : (bs res : Bytes) → hex_digits_loop bs res ≡ res ++ hex_digits_loop bs []
unfolding hex_digits_loop
hex_digits_loop-append [] res = sym (append-nil res)
hex_digits_loop-append (b ∷ bs) res =
    hex_digits_loop-append bs ((res ++ high_digit b ∷ []) ++ low_digit b ∷ [])
    ∙ simp append_assoc
        (ap (λ t. res ++ t) (sym (hex_digits_loop-append bs (high_digit b ∷ low_digit b ∷ []))))

binary_to_hex_string-cons :
    (b : ℕ) (bs : Bytes)
    → binary_to_hex_string (b ∷ bs) ≡ digit (b / 16 % 16) ∷ digit (b % 16) ∷ binary_to_hex_string bs
unfolding binary_to_hex_string
binary_to_hex_string-cons b bs =
    hex_digits_loop-append bs (high_digit b ∷ low_digit b ∷ [])
    ∙ ap₂ (λ h l. h ∷ l ∷ hex_digits_loop bs []) (high_digit_lem b) (low_digit_lem b)

push_pair-digits :
    (b : ℕ) (out : Bytes)
    → b < 256
    → push_pair (from_hex_char (digit (b / 16 % 16))) (from_hex_char (digit (b % 16))) out
      ≡ ok (out ++ b ∷ [])
unfolding push_pair
push_pair-digits b out h =
    rw (from_hex_char-digit (b / 16 % 16) (omega arith), from_hex_char-digit (b % 16) (omega arith))
      (ap (λ t. ok (out ++ t ∷ []))
        (join_nibbles_lem (b / 16 % 16) (b % 16) (omega arith) (omega arith) ∙ omega arith))

hex_pairs_loop-binary :
    (bs out : Bytes) → IsBytes bs → hex_pairs_loop (binary_to_hex_string bs) out ≡ ok (out ++ bs)
unfolding hex_pairs_loop binary_to_hex_string
hex_pairs_loop-binary [] out h = ap ok (sym (append-nil out))
hex_pairs_loop-binary (b ∷ bs) out h =
    rw (binary_to_hex_string-cons b bs, push_pair-digits b out h.0)
      (hex_pairs_loop-binary bs (out ++ b ∷ []) h.1 ∙ ap ok (append_assoc out (b ∷ []) bs))

-- Hexadecimal text is twice as long as its bytes.
length-binary_to_hex_string : (bs : Bytes) → length (binary_to_hex_string bs) ≡ 2 * length bs
unfolding binary_to_hex_string
length-binary_to_hex_string [] = refl
length-binary_to_hex_string (b ∷ bs) =
    rw binary_to_hex_string-cons (omega (arith, length-binary_to_hex_string bs))

-- Every sequence of bytes is read back from its hexadecimal text.
pub hex_string_to_binary-binary_to_hex_string :
    (bs : Bytes) → IsBytes bs → hex_string_to_binary (binary_to_hex_string bs) ≡ ok bs
unfolding hex_string_to_binary
hex_string_to_binary-binary_to_hex_string bs h =
    ground (arith, length-binary_to_hex_string bs, hex_pairs_loop-binary bs [] h)

-- The upper case of a hexadecimal digit.
abbrev pub to_upper : ℕ → ℕ
to_upper c = if leb b'a' c && leb c b'f' then c - 32 else c

from_hex_char-lt : (c v : ℕ) → from_hex_char c ≡ some v → v < 16
unfolding from_hex_char
from_hex_char-lt c v e = ground arith

digit-from_hex_char : (c v : ℕ) → from_hex_char c ≡ some v → digit v ≡ to_upper c
unfolding from_hex_char
digit-from_hex_char c v e = ground (arith, digit_lem v (from_hex_char-lt c v e))

-- What a successful round has read.
record Read (high low : ℕ) (out out' : Bytes) : Type 0 where
  byte : ℕ
  small : byte < 256
  pushed : out' ≡ out ++ byte ∷ []
  high_digit_is : digit (byte / 16 % 16) ≡ to_upper high
  low_digit_is : digit (byte % 16) ≡ to_upper low

push_pair-Read :
    (high low : ℕ) (out : Bytes) {out' : Bytes}
    → push_pair (from_hex_char high) (from_hex_char low) out ≡ ok out'
    → Read high low out out'
unfolding push_pair
push_pair-Read high low out {out'} e = split (from_hex_char high) (from_hex_char low) refl refl e
  where
    split :
        (h l : Option ℕ)
        → from_hex_char high ≡ h
        → from_hex_char low ≡ l
        → push_pair h l out ≡ ok out'
        → Read high low out out'
    split (some h) (some l) eh el r = record {
      byte = h * 16 + l;
      small = omega (arith, from_hex_char-lt high h eh, from_hex_char-lt low l el);
      pushed = cc (joined eh el);
      high_digit_is =
          ap digit {y = h} (omega (arith, from_hex_char-lt high h eh, from_hex_char-lt low l el))
          ∙ digit-from_hex_char high h eh;
      low_digit_is =
          ap digit {y = l} (omega (arith, from_hex_char-lt low l el))
          ∙ digit-from_hex_char low l el;
    }
      where
        joined :
            from_hex_char high ≡ some h → from_hex_char low ≡ some l → join_nibbles h l ≡ h * 16 + l
        joined eh el = join_nibbles_lem h l (from_hex_char-lt high h eh) (from_hex_char-lt low l el)
    split (some h) none eh el r = cc
    split none l eh el r = cc

-- What a successful loop has read.
hex_pairs_loop_sound :
    (hex out : Bytes) {r : Bytes}
    → length hex % 2 ≡ 0
    → hex_pairs_loop hex out ≡ ok r
    → (bs : Bytes) × (r ≡ out ++ bs) × (binary_to_hex_string bs ≡ map to_upper hex) × IsBytes bs
unfolding hex_pairs_loop
hex_pairs_loop_sound [] out even e =
    ([], cc (append-nil out), unfold binary_to_hex_string in refl, tt)
hex_pairs_loop_sound (c ∷ []) out even e = absurd (omega arith)
hex_pairs_loop_sound (high ∷ low ∷ hex) out even e =
    let chain = succeeded (push_pair (from_hex_char high) (from_hex_char low) out) e in
    let read = push_pair-Read high low out chain.first in
    let (bs, eq, text, small) = hex_pairs_loop_sound hex chain.value (omega arith) chain.rest in
    (
      read.byte ∷ bs,
      eq ∙ ap (λ t. t ++ bs) read.pushed ∙ append_assoc out (read.byte ∷ []) bs,
      binary_to_hex_string-cons read.byte bs ∙ cc (read.high_digit_is, read.low_digit_is, text),
      (read.small, small),
    )

ok-ne-err : {x : HexError} {bs : Bytes} → ¬ (err x ≡ ok bs)
ok-ne-err e = cc

-- Accepted text has an even length and holds only hexadecimal digits: in upper case it is the
-- text of the bytes that are returned.
pub binary_to_hex_string-hex_string_to_binary :
    (hex : Bytes) {bs : Bytes}
    → hex_string_to_binary hex ≡ ok bs
    → (binary_to_hex_string bs ≡ map to_upper hex) × IsBytes bs
unfolding hex_string_to_binary
binary_to_hex_string-hex_string_to_binary hex {bs} e = elim (Bool-cases (length hex % 2 == 0)) [
  | inl even ↦
      let (bs', eq, text, small) = hex_pairs_loop_sound hex [] (==→eq _ _ even) (rw even at e) in
      rw eq (text, small)
  | inr odd ↦ absurd (ok-ne-err (rw odd at e))
]
