-- ===== src/Utils.antt =====
-- Src/IACore/imp/cpp/Utils.cpp: hexadecimal text. Its laws are in Utils/Hex; the hashes of
-- Src/IACore/inc/IACore/Utils.hpp are in Utils/Hash.
-- The `-1` of `from_hex_char` is `none`.
pub mod Hex
pub mod Hash
mod Tests
use iacore.Base.{
  ℕ, ◌+◌, ◌-◌, ◌*◌, ◌/◌, ◌%◌, ◌^◌, bit_and, bit_or, ◌&&◌, Option, none, some, [], ◌∷◌, ◌++◌, not,
  Bytes, codes, length, get_or, leb, ◌==◌, if◌then◌else◌, Result, ok, err, ◌>>=◌,
}

pub data HexError : Type 0 where
  odd_length invalid_character : HexError

pub from_hex_char : ℕ → Option ℕ
from_hex_char c =
    if leb b'0' c && leb c b'9'
    then some (c - b'0')
    else if leb b'A' c && leb c b'F'
    then some (c - b'A' + 10)
    else if leb b'a' c && leb c b'f'
    then some (c - b'a' + 10)
    else none

abbrev pub hex_lut : Bytes
hex_lut = codes "0123456789ABCDEF"

-- `LUT[(b >> 4) & 0x0F]` and `LUT[b & 0x0F]`
pub high_digit : ℕ → ℕ
high_digit b = get_or hex_lut (bit_and (b / 2 ^ 4) 0x0F) 0

pub low_digit : ℕ → ℕ
low_digit b = get_or hex_lut (bit_and b 0x0F) 0

pub hex_digits_loop : Bytes → Bytes → Bytes
hex_digits_loop [] res = res
hex_digits_loop (b ∷ bs) res = hex_digits_loop bs ((res ++ high_digit b ∷ []) ++ low_digit b ∷ [])

pub binary_to_hex_string : Bytes → Bytes
unfolding hex_digits_loop high_digit low_digit
binary_to_hex_string bytes = hex_digits_loop bytes []

-- `static_cast<u8>((h << 4) | l)`
pub join_nibbles : ℕ → ℕ → ℕ
join_nibbles h l = bit_or (h * 2 ^ 4) l % 256

-- What a round does with the two digits that it reads.
pub push_pair : Option ℕ → Option ℕ → Bytes → Result HexError Bytes
push_pair (some h) (some l) out = ok (out ++ join_nibbles h l ∷ [])
push_pair _ _ out = err invalid_character

-- A round reads two characters; the text has an even length, so no single one is left over.
pub hex_pairs_loop : Bytes → Bytes → Result HexError Bytes
unfolding push_pair
hex_pairs_loop [] out = ok out
hex_pairs_loop (c ∷ []) out = ok out
hex_pairs_loop (high ∷ low ∷ hex) out =
    push_pair (from_hex_char high) (from_hex_char low) out >>= λ out'. hex_pairs_loop hex out'

pub hex_string_to_binary : Bytes → Result HexError Bytes
unfolding hex_pairs_loop from_hex_char join_nibbles
hex_string_to_binary hex =
    if not (length hex % 2 == 0) then err odd_length else hex_pairs_loop hex []
