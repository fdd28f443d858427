-- ===== src/DataOps/Crc/Blocks.antt =====
-- DataOps.cpp: the checksum by blocks of eight bytes is the checksum bit by bit.
use iacore.Base.{
  ℕ, zero, suc, ◌+◌, ◌-◌, ◌*◌, ◌/◌, ◌%◌, ◌^◌, ◌≤◌, ◌<◌, ◌≡◌, refl, sym, ap, ◌∙◌, bit_and, bit_xor,
  [], ◌∷◌, Bytes, IsBytes, length, drop, bit_and_255, bit_xor_assoc, bit_xor_disjoint, bit_xor_comm,
  arith,
}
use mathlib.Core.Path.{subst}
use iacore.Stream.Sequences.{drop-drop}
use iacore.DataOps.{crc_bits, table, read_u32, slice_round, block_rounds, single_rounds, checksum}
use iacore.DataOps.Crc.{byte_step, byte_steps, crc32c}
use iacore.DataOps.Crc.Linear.{
  crc_bits-xor, crc_bits-crc_bits, crc_bits-shifted, crc_bits-absorb, table-crc_bits, byte_step-lt,
}

-- A word is the sum of its bytes, each in its place.
abbrev word : ℕ → ℕ → ℕ → ℕ → ℕ
word a b c d = a + b * 2 ^ 8 + c * 2 ^ 16 + d * 2 ^ 24

word-xor :
    (a b c d : ℕ)
    → a < 256
    → b < 256
    → c < 256
    → bit_xor (bit_xor (bit_xor a (b * 2 ^ 8)) (c * 2 ^ 16)) (d * 2 ^ 24) ≡ word a b c d
word-xor a b c d ha hb hc =
    let two = bit_xor_comm a (b * 2 ^ 8) ∙ bit_xor_disjoint 8 b a ha in
    let three =
      ap (λ t. bit_xor t (c * 2 ^ 16)) two
      ∙ bit_xor_comm (b * 2 ^ 8 + a) (c * 2 ^ 16)
      ∙ bit_xor_disjoint 16 c (b * 2 ^ 8 + a) (omega arith) in
    ap (λ t. bit_xor t (d * 2 ^ 24)) three
    ∙ bit_xor_comm (c * 2 ^ 16 + (b * 2 ^ 8 + a)) (d * 2 ^ 24)
    ∙ bit_xor_disjoint 24 d (c * 2 ^ 16 + (b * 2 ^ 8 + a)) (omega arith)
    ∙ omega arith

-- Steps of a word are steps of its bytes.
crc_bits-word :
    (n m a b c d : ℕ)
    → n ≡ m + 24
    → a < 256
    → b < 256
    → c < 256
    → crc_bits n (word a b c d)
      ≡ bit_xor
          (bit_xor (bit_xor (crc_bits (m + 24) a) (crc_bits (m + 16) b)) (crc_bits (m + 8) c))
          (crc_bits m d)
crc_bits-word n m a b c d e ha hb hc =
    ap (crc_bits n) (sym (word-xor a b c d ha hb hc))
    ∙ crc_bits-xor n (bit_xor (bit_xor a (b * 2 ^ 8)) (c * 2 ^ 16)) (d * 2 ^ 24)
    ∙ ap (λ t. bit_xor t (crc_bits n (d * 2 ^ 24)))
        (crc_bits-xor n (bit_xor a (b * 2 ^ 8)) (c * 2 ^ 16))
    ∙ ap (λ t. bit_xor (bit_xor t (crc_bits n (c * 2 ^ 16))) (crc_bits n (d * 2 ^ 24)))
        (crc_bits-xor n a (b * 2 ^ 8))
    ∙ (λ i.
        bit_xor
          (bit_xor (bit_xor (crc_bits (e i) a) (later 8 (m + 16) b (omega arith) i))
            (later 16 (m + 8) c (omega arith) i))
          (later 24 m d (omega arith) i))
  where
    later : (k j x : ℕ) → n ≡ k + j → crc_bits n (x * 2 ^ k) ≡ crc_bits j x
    later k j x h =
        sym (crc_bits-crc_bits k j n (x * 2 ^ k) h) ∙ ap (crc_bits j) (crc_bits-shifted k x)

-- Four byte steps are 32 steps of the register with the word added.
byte_steps-word :
    (crc a b c d : ℕ)
    → a < 256
    → b < 256
    → c < 256
    → byte_step (byte_step (byte_step (byte_step crc a) b) c) d
      ≡ crc_bits 32 (bit_xor crc (word a b c d))
unfolding byte_step
byte_steps-word crc a b c d ha hb hc =
    ap (λ t. crc_bits 8 (bit_xor (crc_bits 8 (bit_xor t c)) d)) (more 8 16 (bit_xor crc a) b refl)
    ∙ ap (λ t. crc_bits 8 (bit_xor t d)) (more 16 24 (bit_xor (bit_xor crc a) (b * 2 ^ 8)) c refl)
    ∙ more 24 32 (bit_xor (bit_xor (bit_xor crc a) (b * 2 ^ 8)) (c * 2 ^ 16)) d refl
    ∙ ap (crc_bits 32) (gather ∙ ap (bit_xor crc) (word-xor a b c d ha hb hc))
  where
    more :
        (n k x b : ℕ)
        → k ≡ n + 8
        → crc_bits 8 (bit_xor (crc_bits n x) b) ≡ crc_bits k (bit_xor x (b * 2 ^ n))
    more n k x b h =
        ap (crc_bits 8) (crc_bits-absorb n x b) ∙ crc_bits-crc_bits n 8 k (bit_xor x (b * 2 ^ n)) h

    gather :
        bit_xor (bit_xor (bit_xor (bit_xor crc a) (b * 2 ^ 8)) (c * 2 ^ 16)) (d * 2 ^ 24)
        ≡ bit_xor crc (bit_xor (bit_xor (bit_xor a (b * 2 ^ 8)) (c * 2 ^ 16)) (d * 2 ^ 24))
    gather =
        ap (λ t. bit_xor (bit_xor t (c * 2 ^ 16)) (d * 2 ^ 24)) (bit_xor_assoc crc a (b * 2 ^ 8))
        ∙ ap (λ t. bit_xor t (d * 2 ^ 24)) (bit_xor_assoc crc (bit_xor a (b * 2 ^ 8)) (c * 2 ^ 16))
        ∙ bit_xor_assoc crc (bit_xor (bit_xor a (b * 2 ^ 8)) (c * 2 ^ 16)) (d * 2 ^ 24)

-- Four looks into the tables for the four bytes of a term.
tables-word :
    (t s : ℕ)
    → bit_xor
        (bit_xor
          (bit_xor
            (table (suc (suc (suc s))) (bit_and t 0xFF))
            (table (suc (suc s)) (bit_and (t / 2 ^ 8) 0xFF)))
          (table (suc s) (bit_and (t / 2 ^ 16) 0xFF)))
        (table s (t / 2 ^ 24))
      ≡ crc_bits (8 + s * 8 + 24) t
tables-word t s =
    (λ i.
      bit_xor
        (bit_xor
          (bit_xor
            (table-crc_bits (suc (suc (suc s))) (bit_and t 0xFF) (8 + s * 8 + 24) (omega arith) i)
            (table-crc_bits (suc (suc s)) (bit_and (t / 2 ^ 8) 0xFF) (8 + s * 8 + 16) (omega arith)
              i))
          (table-crc_bits (suc s) (bit_and (t / 2 ^ 16) 0xFF) (8 + s * 8 + 8) (omega arith) i))
        (table-crc_bits s (t / 2 ^ 24) (8 + s * 8) refl i))
    ∙ sym (
        crc_bits-word (8 + s * 8 + 24) (8 + s * 8) (bit_and t 0xFF) (bit_and (t / 2 ^ 8) 0xFF)
          (bit_and (t / 2 ^ 16) 0xFF) (t / 2 ^ 24) refl (omega (arith, low)) (omega (arith, second))
          (omega (arith, third)))
    ∙ ap (crc_bits (8 + s * 8 + 24)) (omega (arith, low, second, third))
  where
    low : bit_and t 255 ≡ t % 256
    low = bit_and_255 t

    second : bit_and (t / 2 ^ 8) 255 ≡ t / 2 ^ 8 % 256
    second = bit_and_255 (t / 2 ^ 8)

    third : bit_and (t / 2 ^ 16) 255 ≡ t / 2 ^ 16 % 256
    third = bit_and_255 (t / 2 ^ 16)

-- One round of the first loop.
pub slice_round-byte_steps :
    (crc b0 b1 b2 b3 b4 b5 b6 b7 : ℕ) (rest : Bytes)
    → IsBytes (b0 ∷ b1 ∷ b2 ∷ b3 ∷ b4 ∷ b5 ∷ b6 ∷ b7 ∷ rest)
    → slice_round (b0 ∷ b1 ∷ b2 ∷ b3 ∷ b4 ∷ b5 ∷ b6 ∷ b7 ∷ rest) crc
      ≡ byte_steps (b0 ∷ b1 ∷ b2 ∷ b3 ∷ b4 ∷ b5 ∷ b6 ∷ b7 ∷ []) crc
unfolding slice_round read_u32 byte_steps
slice_round-byte_steps crc b0 b1 b2 b3 b4 b5 b6 b7 rest
      (h0, (h1, (h2, (h3, (h4, (h5, (h6, (h7, hs)))))))) =
    let t1 = bit_xor crc (word b0 b1 b2 b3) in
    let t2 = word b4 b5 b6 b7 in
    regroup _ _ _ _ _
    ∙ (λ i. bit_xor (tables-word t1 4 i) (tables-word t2 0 i))
    ∙ ap (λ t. bit_xor t (crc_bits 32 t2)) (sym (crc_bits-crc_bits 32 32 64 t1 refl))
    ∙ sym (crc_bits-xor 32 (crc_bits 32 t1) t2)
    ∙ sym (byte_steps-word (crc_bits 32 t1) b4 b5 b6 b7 h4 h5 h6)
    ∙ ap (λ t. byte_step (byte_step (byte_step (byte_step t b4) b5) b6) b7)
        (sym (byte_steps-word crc b0 b1 b2 b3 h0 h1 h2))
  where
    regroup :
        (x a b c d : ℕ)
        → bit_xor (bit_xor (bit_xor (bit_xor x a) b) c) d
          ≡ bit_xor x (bit_xor (bit_xor (bit_xor a b) c) d)
    regroup x a b c d =
        ap (λ t. bit_xor (bit_xor t c) d) (bit_xor_assoc x a b)
        ∙ ap (λ t. bit_xor t d) (bit_xor_assoc x (bit_xor a b) c)
        ∙ bit_xor_assoc x (bit_xor (bit_xor a b) c) d

-- What a round must do for the loops to compute the checksum.
abbrev pub IsBlockRound : (Bytes → ℕ → ℕ) → Type 0
IsBlockRound round =
    (crc b0 b1 b2 b3 b4 b5 b6 b7 : ℕ) (rest : Bytes)
    → crc < 2 ^ 32
    → IsBytes (b0 ∷ b1 ∷ b2 ∷ b3 ∷ b4 ∷ b5 ∷ b6 ∷ b7 ∷ rest)
    → round (b0 ∷ b1 ∷ b2 ∷ b3 ∷ b4 ∷ b5 ∷ b6 ∷ b7 ∷ rest) crc
      ≡ byte_steps (b0 ∷ b1 ∷ b2 ∷ b3 ∷ b4 ∷ b5 ∷ b6 ∷ b7 ∷ []) crc

abbrev pub IsSingleRound : (ℕ → ℕ → ℕ) → Type 0
IsSingleRound round = (crc b : ℕ) → crc < 2 ^ 32 → b < 256 → round crc b ≡ byte_step crc b

pub byte_steps-lt :
    (bytes : Bytes) (crc : ℕ) → IsBytes bytes → crc < 2 ^ 32 → byte_steps bytes crc < 2 ^ 32
unfolding byte_steps
byte_steps-lt [] crc h lt = lt
byte_steps-lt (b ∷ bytes) crc (hb, h) lt =
    byte_steps-lt bytes (byte_step crc b) h (byte_step-lt crc b lt hb)

single_rounds-byte_steps :
    (round : ℕ → ℕ → ℕ) (p : Bytes) (crc : ℕ)
    → IsSingleRound round
    → IsBytes p
    → crc < 2 ^ 32
    → single_rounds round p crc ≡ byte_steps p crc
unfolding single_rounds byte_steps
single_rounds-byte_steps round [] crc is h lt = refl
single_rounds-byte_steps round (b ∷ p) crc is (hb, h) lt =
    ap (single_rounds round p) (is crc b lt hb)
    ∙ single_rounds-byte_steps round p (byte_step crc b) is h (byte_step-lt crc b lt hb)

-- After `n` blocks of eight bytes, `m` bytes in all, the register is that of the steps so far, and the rest is left.
record AfterBlocks (round : Bytes → ℕ → ℕ) (n m : ℕ) (p : Bytes) (crc : ℕ) : Type 0 where
  steps : byte_steps p crc ≡ byte_steps (drop m p) (block_rounds round n p crc)
  fits : block_rounds round n p crc < 2 ^ 32
  left : IsBytes (drop m p)

block_rounds-AfterBlocks :
    (round : Bytes → ℕ → ℕ) (n m : ℕ) (p : Bytes) (crc : ℕ)
    → IsBlockRound round
    → m ≡ n * 8
    → m ≤ length p
    → IsBytes p
    → crc < 2 ^ 32
    → AfterBlocks round n m p crc
unfolding block_rounds byte_steps
block_rounds-AfterBlocks round zero zero p crc is e le h lt = record {
  steps = refl;
  fits = lt;
  left = h;
}
block_rounds-AfterBlocks round zero (suc m) p crc is e le h lt = absurd (omega arith)
block_rounds-AfterBlocks round (suc n) m [] crc is e le h lt = absurd (omega arith)
block_rounds-AfterBlocks round (suc n) m (b0 ∷ []) crc is e le h lt = absurd (omega arith)
block_rounds-AfterBlocks round (suc n) m (b0 ∷ b1 ∷ []) crc is e le h lt = absurd (omega arith)
block_rounds-AfterBlocks round (suc n) m (b0 ∷ b1 ∷ b2 ∷ []) crc is e le h lt = absurd (omega arith)
block_rounds-AfterBlocks round (suc n) m (b0 ∷ b1 ∷ b2 ∷ b3 ∷ []) crc is e le h lt =
    absurd (omega arith)
block_rounds-AfterBlocks round (suc n) m (b0 ∷ b1 ∷ b2 ∷ b3 ∷ b4 ∷ []) crc is e le h lt =
    absurd (omega arith)
block_rounds-AfterBlocks round (suc n) m (b0 ∷ b1 ∷ b2 ∷ b3 ∷ b4 ∷ b5 ∷ []) crc is e le h lt =
    absurd (omega arith)
block_rounds-AfterBlocks round (suc n) m (b0 ∷ b1 ∷ b2 ∷ b3 ∷ b4 ∷ b5 ∷ b6 ∷ []) crc is e le h lt =
    absurd (omega arith)
block_rounds-AfterBlocks round (suc n) m (b0 ∷ b1 ∷ b2 ∷ b3 ∷ b4 ∷ b5 ∷ b6 ∷ b7 ∷ rest) crc is e le
      h lt =
    let block = b0 ∷ b1 ∷ b2 ∷ b3 ∷ b4 ∷ b5 ∷ b6 ∷ b7 ∷ [] in
    let (h0, (h1, (h2, (h3, (h4, (h5, (h6, (h7, hs)))))))) = h in
    let same = is crc b0 b1 b2 b3 b4 b5 b6 b7 rest lt h in
    let register_lt =
      byte_steps-lt block crc (h0, (h1, (h2, (h3, (h4, (h5, (h6, (h7, tt)))))))) lt in
    let behind =
      drop-drop 8 (m - 8) m (b0 ∷ b1 ∷ b2 ∷ b3 ∷ b4 ∷ b5 ∷ b6 ∷ b7 ∷ rest) (omega arith) in
    let later =
      block_rounds-AfterBlocks round n (m - 8) rest (byte_steps block crc) is (omega arith)
        (omega arith) hs register_lt in
    record {
      steps = later.steps ∙ (λ i. byte_steps (behind i) (block_rounds round n rest (sym same i)));
      fits = rw same (later.fits);
      left = subst IsBytes behind (later.left);
    }

-- Both loops together compute the checksum, whatever the rounds are, if they do what their bytes ask.
pub checksum-crc32c :
    (block : Bytes → ℕ → ℕ) (single : ℕ → ℕ → ℕ) (bytes : Bytes)
    → IsBlockRound block
    → IsSingleRound single
    → IsBytes bytes
    → checksum block single bytes ≡ crc32c bytes
unfolding checksum crc32c
checksum-crc32c block single bytes is_block is_single h =
    let m = length bytes / 8 * 8 in
    let after =
      block_rounds-AfterBlocks block (length bytes / 8) m bytes 0xFFFFFFFF is_block refl
        (omega arith) h (omega arith) in
    ap (λ t. bit_xor t 0xFFFFFFFF)
      (single_rounds-byte_steps single (drop m bytes) _ is_single after.left after.fits
        ∙ sym after.steps)
