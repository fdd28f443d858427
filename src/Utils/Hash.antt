-- ===== src/Utils/Hash.antt =====
-- Src/IACore/inc/IACore/Utils.hpp: `hash_combine` and the hashes of several values. What the hasher
-- of the library ankerl::unordered_dense returns for a value is the parameter `hasher`.
use iacore.Base.{
  ℕ, ◌+◌, ◌*◌, ◌/◌, ◌%◌, ◌^◌, ◌<◌, ◌≡◌, refl, sym, ap, ◌∙◌, List, [], ◌∷◌, ◌++◌, bit_xor,
  bit_xor_assoc, bit_xor_self, zero-bit_xor, arith,
}

abbrev pub u64_limit : ℕ
u64_limit = 2 ^ 64

pub hash_combine : {A : Type 0} → (A → ℕ) → ℕ → A → ℕ
hash_combine hasher seed v =
    bit_xor seed
      ((hasher v + 0x9e3779b97f4a7c15 + seed * 2 ^ 6 % u64_limit + seed / 2 ^ 2) % u64_limit)

-- `compute_hash` and `compute_hash_flat` from a seed: the arguments or the members in their order.
pub combine_all : {A : Type 0} → (A → ℕ) → ℕ → List A → ℕ
unfolding hash_combine
combine_all hasher seed [] = seed
combine_all hasher seed (v ∷ args) = combine_all hasher (hash_combine hasher seed v) args

unfoldable pub compute_hash : {A : Type 0} → (A → ℕ) → List A → ℕ
unfolding combine_all
compute_hash hasher args = combine_all hasher 0 args

xor_cancel : (s a b : ℕ) → bit_xor s a ≡ bit_xor s b → a ≡ b
xor_cancel s a b e =
    sym (zero-bit_xor a)
    ∙ ap (λ t. bit_xor t a) (sym (bit_xor_self s))
    ∙ bit_xor_assoc s s a
    ∙ ap (bit_xor s) e
    ∙ sym (bit_xor_assoc s s b)
    ∙ ap (λ t. bit_xor t b) (bit_xor_self s)
    ∙ zero-bit_xor b

remainder_cancel :
    (a b c : ℕ) → a < u64_limit → b < u64_limit → (a + c) % u64_limit ≡ (b + c) % u64_limit → a ≡ b
remainder_cancel a b c ha hb e = omega arith

combine_all-append :
    {A : Type 0} (hasher : A → ℕ) (seed : ℕ) (args : List A) (v : A)
    → combine_all hasher seed (args ++ v ∷ [])
      ≡ hash_combine hasher (combine_all hasher seed args) v
unfolding combine_all
combine_all-append hasher seed [] v = refl
combine_all-append hasher seed (x ∷ args) v =
    combine_all-append hasher (hash_combine hasher seed x) args v

-- Two lists of values that differ only in the last one have the same hash only if the hasher gives the same number for
-- both: combining loses nothing of the last value's hash. A hash is a `u64`.
pub compute_hash-last :
    {A : Type 0} (hasher : A → ℕ) (args : List A) (v w : A)
    → hasher v < u64_limit
    → hasher w < u64_limit
    → compute_hash hasher (args ++ v ∷ []) ≡ compute_hash hasher (args ++ w ∷ [])
    → hasher v ≡ hasher w
unfolding compute_hash hash_combine
compute_hash-last hasher args v w small_v small_w e =
    let seed = combine_all hasher 0 args in
    let same = sym (combine_all-append hasher 0 args v) ∙ e ∙ combine_all-append hasher 0 args w in
    let summed = xor_cancel seed _ _ same in
    remainder_cancel (hasher v) (hasher w)
      (0x9e3779b97f4a7c15 + seed * 2 ^ 6 % u64_limit + seed / 2 ^ 2) small_v small_w
      (omega (arith, summed))
