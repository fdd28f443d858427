-- ===== src/Http/Common.antt =====
-- Src/IACore/imp/cpp/Http/Common.cpp and Src/IACore/inc/IACore/Http/Common.hpp.
-- `std::isalnum` is that of the "C" locale, and `std::strtol` with base 16 is written out for the
-- two characters that it is called on. The laws are in Common/Url.
pub mod Url
mod Tests
use iacore.Base.{
  ℕ, ◌+◌, ◌-◌, ◌*◌, ◌/◌, ◌%◌, ◌^◌, Bool, true, false, ◌&&◌, ◌||◌, [], ◌∷◌, ◌++◌, Bytes, codes,
  get_or, ltb, leb, ◌==◌, if◌then◌else◌,
}

pub is_alnum : ℕ → Bool
is_alnum c = (leb b'0' c && leb c b'9') || (leb b'A' c && leb c b'Z') || (leb b'a' c && leb c b'z')

pub is_unreserved : ℕ → Bool
unfolding is_alnum
is_unreserved c = is_alnum c || c == b'-' || c == b'_' || c == b'.' || c == b'~'

-- A digit of `std::hex << std::uppercase`.
pub upper_hex_digit : ℕ → ℕ
upper_hex_digit v = get_or (codes "0123456789ABCDEF") v 0

-- What one round of the loop writes: with `setw(2)` and fill `0` a byte has two digits.
pub url_encode_char : ℕ → Bytes
unfolding is_unreserved upper_hex_digit
url_encode_char c =
    if is_unreserved c
    then c ∷ []
    else b'%' ∷ upper_hex_digit (c / 16) ∷ upper_hex_digit (c % 16) ∷ []

pub url_encode_loop : Bytes → Bytes → Bytes
url_encode_loop [] escaped = escaped
url_encode_loop (c ∷ value) escaped = url_encode_loop value (escaped ++ url_encode_char c)

pub url_encode : Bytes → Bytes
unfolding url_encode_loop url_encode_char
url_encode value = url_encode_loop value []

pub is_hex : ℕ → Bool
is_hex c = (leb b'0' c && leb c b'9') || (leb b'A' c && leb c b'F') || (leb b'a' c && leb c b'f')

pub hex_value : ℕ → ℕ
hex_value c = if leb c b'9' then c - b'0' else if leb c b'F' then c - b'A' + 10 else c - b'a' + 10

-- `isspace` of the "C" locale.
pub is_space : ℕ → Bool
is_space c = c == b' ' || (leb 9 c && leb c 13)

-- `static_cast<char>(std::strtol(s, nullptr, 16))` for the text of the two characters `a` and `b`:
-- blanks, a sign, then digits up to the first character that is none. (For `0x` no digit follows
-- the prefix, so the `0` alone is read.)
pub strtol_char : ℕ → ℕ → ℕ
unfolding is_hex hex_value is_space
strtol_char a b =
    if is_hex a
    then (if is_hex b then hex_value a * 16 + hex_value b else hex_value a)
    else if is_space a || a == b'+'
    then (if is_hex b then hex_value b else 0)
    else if a == b'-'
    then (if is_hex b then (256 - hex_value b) % 256 else 0)
    else 0

-- A character that begins no escape.
pub plain_char : ℕ → ℕ
plain_char c = if c == b'+' then b' ' else c

-- The loop of `url_decode`: an escape is a `%` with two characters behind it.
pub url_decode_loop : Bytes → Bytes → Bytes
unfolding plain_char strtol_char
url_decode_loop [] result = result
url_decode_loop (c ∷ []) result = result ++ plain_char c ∷ []
url_decode_loop (c ∷ a ∷ []) result = url_decode_loop (a ∷ []) (result ++ plain_char c ∷ [])
url_decode_loop (c ∷ a ∷ b ∷ value) result =
    let escape = url_decode_loop value (result ++ strtol_char a b ∷ []) in
    let plain = url_decode_loop (a ∷ b ∷ value) (result ++ plain_char c ∷ []) in
    if c == b'%' then escape else plain

pub url_decode : Bytes → Bytes
unfolding url_decode_loop
url_decode value = url_decode_loop value []
