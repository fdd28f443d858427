-- ===== src/StringOps.antt =====
-- Src/IACore/imp/cpp/StringOps.cpp: base64. Its laws are in StringOps/RoundTrip.
-- A `String` and a `Vec<u8>` are lists of bytes. `x >> k` is `x / 2 ^ k`, `x << k` is `x * 2 ^ k`,
-- and a value pushed into a `Vec<u8>` is taken modulo 256.
pub mod RoundTrip
mod Tests
use iacore.Base.{
  ℕ, ◌+◌, ◌-◌, ◌*◌, ◌/◌, ◌%◌, ◌^◌, bit_and, bit_or, Bool, ◌&&◌, ◌||◌, not, List, [], ◌∷◌, ◌++◌,
  Bytes, codes, get_or, set, ltb, leb, ◌==◌, if◌then◌else◌,
}

abbrev pub base64_char_table : Bytes
base64_char_table = codes "ABCDEFGHIJKLMNOPQRSTUVWXYZabcdefghijklmnopqrstuvwxyz0123456789+/"

pub is_base64 : ℕ → Bool
is_base64 c =
    (leb b'A' c && leb c b'Z')
    || (leb b'a' c && leb c b'z')
    || (leb b'0' c && leb c b'9')
    || c == b'+'
    || c == b'/'

pub get_base64_index : ℕ → ℕ
get_base64_index c =
    if leb b'A' c && leb c b'Z'
    then c - b'A'
    else if leb b'a' c && leb c b'z'
    then c - b'a' + 26
    else if leb b'0' c && leb c b'9'
    then c - b'0' + 52
    else if c == b'+'
    then 62
    else if c == b'/'
    then 63
    else 0

-- `BASE64_CHAR_TABLE[i]`; the index is masked to six bits, so it is in range.
pub table_char : ℕ → ℕ
table_char i = get_or base64_char_table i 0

abbrev pub pad : ℕ
pad = b'='

-- `(b0 << 16) | (b1 << 8) | b2`
pub triple : ℕ → ℕ → ℕ → ℕ
triple b0 b1 b2 = bit_or (bit_or (b0 * 2 ^ 16) (b1 * 2 ^ 8)) b2

-- `(t >> k) & 0x3F`
pub sextet : ℕ → ℕ → ℕ
sextet t k = bit_and (t / 2 ^ k) 0x3F

-- A round of the loop takes three bytes, and the last round one or two: `b1` and `b2` are then 0.
pub encode_base64 : Bytes → Bytes
unfolding table_char triple sextet
encode_base64 [] = []
encode_base64 (b0 ∷ []) =
    let t = triple b0 0 0 in table_char (sextet t 18) ∷ table_char (sextet t 12) ∷ pad ∷ pad ∷ []
encode_base64 (b0 ∷ b1 ∷ []) =
    let t = triple b0 b1 0 in
    table_char (sextet t 18) ∷ table_char (sextet t 12) ∷ table_char (sextet t 6) ∷ pad ∷ []
encode_base64 (b0 ∷ b1 ∷ b2 ∷ rest) =
    let t = triple b0 b1 b2 in
    table_char (sextet t 18)
    ∷ table_char (sextet t 12)
    ∷ table_char (sextet t 6)
    ∷ table_char (sextet t 0)
    ∷ encode_base64 rest

-- The three bytes that `decode_base64` pushes for a group.
pub first_byte : ℕ → ℕ → ℕ
first_byte n0 n1 = bit_or (n0 * 2 ^ 2) (bit_and n1 0x30 / 2 ^ 4) % 256

pub second_byte : ℕ → ℕ → ℕ
second_byte n1 n2 = bit_or (bit_and n1 0x0F * 2 ^ 4) (bit_and n2 0x3C / 2 ^ 2) % 256

pub third_byte : ℕ → ℕ → ℕ
third_byte n2 n3 = bit_or (bit_and n2 0x03 * 2 ^ 6) n3 % 256

-- `tmp_buf[j]`; every index is below 4.
abbrev pub index_at : Bytes → ℕ → ℕ
index_at tmp_buf j = get_base64_index (get_or tmp_buf j 0)

-- What the branch `i == 4` pushes.
abbrev pub group_bytes : Bytes → Bytes
group_bytes tmp_buf =
    first_byte (index_at tmp_buf 0) (index_at tmp_buf 1)
    ∷ second_byte (index_at tmp_buf 1) (index_at tmp_buf 2)
    ∷ third_byte (index_at tmp_buf 2) (index_at tmp_buf 3)
    ∷ []

-- `for (j = i; j < 4; ++j) tmp_buf[j] = 'A'`, written out for the slots 1 to 3: `i` is above 0.
pub fill_tmp : ℕ → Bytes → Bytes
fill_tmp i tmp_buf =
    let a = if leb i 1 then set tmp_buf 1 b'A' else tmp_buf in
    let b = if leb i 2 then set a 2 b'A' else a in if leb i 3 then set b 3 b'A' else b

-- The bytes of an incomplete group, behind the loop.
pub decode_tail : ℕ → Bytes → Bytes → Bytes
unfolding fill_tmp
decode_tail i tmp_buf result =
    if ltb 0 i
    then (let tmp = fill_tmp i tmp_buf in
        let r1 =
          if ltb 1 i then result ++ first_byte (index_at tmp 0) (index_at tmp 1) ∷ [] else result in
        if ltb 2 i then r1 ++ second_byte (index_at tmp 1) (index_at tmp 2) ∷ [] else r1)
    else result

-- The loop over the characters; its `break`s go on behind it.
pub decode_loop : Bytes → ℕ → Bytes → Bytes → Bytes
unfolding decode_tail
decode_loop [] i tmp_buf result = decode_tail i tmp_buf result
decode_loop (c ∷ rest) i tmp_buf result =
    let stop = decode_tail i tmp_buf result in
    let tmp = set tmp_buf i c in
    let next =
      decode_loop rest (if i + 1 == 4 then 0 else i + 1) tmp
        (if i + 1 == 4 then result ++ group_bytes tmp else result) in
    if c == pad then stop else if not (is_base64 c) then stop else next

pub decode_base64 : Bytes → Bytes
unfolding decode_loop
decode_base64 text = decode_loop text 0 (0 ∷ 0 ∷ 0 ∷ 0 ∷ []) []
