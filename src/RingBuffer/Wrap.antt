-- ===== src/RingBuffer/Wrap.antt =====
-- ADT/RingBuffer.hpp: `write_wrapped` and `read_wrapped` are copies round the ring.
use Prim.Native.Nat.add
use mathlib.Core.Path.{ap₂}
use native.Mathlib.Nat.{mod-eq_of_lt, mod-eq-sub-mod, mod-mod, mod_self, mod-add-mod, add-zero}
use native.Mathlib.Decide.{dec_lt, dec_le}
use iacore.Base.{
  ℕ, zero, suc, ◌+◌, ◌-◌, ◌%◌, ◌≤◌, ◌<◌, ◌≡◌, ◌≢◌, refl, ap, sym, ◌∙◌, [], ◌∷◌, ◌++◌, Bytes, length,
  get_or, set, take, drop, length-set, get_or-set_self, get_or-set_ne, append_assoc, append-nil,
  take-append-drop, length-take, length-drop, arith,
}
use iacore.RingBuffer.{u32_mod, copy_in, copy_out, write_wrapped, read_wrapped}

-- Positions that are less than a round apart are different places.
mod-ne_reduced : (cap r d : ℕ) → r < cap → 0 < d → d < cap → r ≢ (r + d) % cap
mod-ne_reduced cap r d hr h lt e = elim (dec_lt (r + d) cap) [
  | yes p ↦ omega (arith, mod-eq_of_lt p)
  | no p ↦ omega (
    arith,
    mod-eq-sub-mod {n = r + d} {m = cap} (omega arith),
    mod-eq_of_lt {n = r + d - cap} {m = cap} (omega arith),
  )
]

pub mod-ne : (cap a d : ℕ) → 0 < d → d < cap → a % cap ≢ (a + d) % cap
mod-ne cap a d h lt e =
    mod-ne_reduced cap (a % cap) d (omega arith) h lt (e ∙ sym (mod-add-mod a cap d))

module _ (cap : ℕ) where
  -- The `n` bytes from position `p` on, where position `p` is the place `p % cap`.
  abbrev pub window : Bytes → ℕ → ℕ → Bytes
  window mem p zero = []
  window mem p (suc n) = get_or mem (p % cap) 0 ∷ window mem (p + 1) n

  -- Bytes written one by one from position `p` on.
  abbrev pub ring_put : Bytes → ℕ → Bytes → Bytes
  ring_put mem p [] = mem
  ring_put mem p (x ∷ xs) = ring_put (set mem (p % cap) x) (p + 1) xs

  pub length-window : (mem : Bytes) (p n : ℕ) → length (window mem p n) ≡ n
  length-window mem p zero = refl
  length-window mem p (suc n) = ap suc (length-window mem (p + 1) n)

  pub length-ring_put : (mem : Bytes) (p : ℕ) (xs : Bytes) → length (ring_put mem p xs) ≡ length mem
  length-ring_put mem p [] = refl
  length-ring_put mem p (x ∷ xs) =
      length-ring_put (set mem (p % cap) x) (p + 1) xs ∙ length-set mem (p % cap) x

  pub window-append :
      (mem : Bytes) (p a b : ℕ) → window mem p (a + b) ≡ window mem p a ++ window mem (p + a) b
  window-append mem p zero b = rw (add.zero, add-zero)
  window-append mem p (suc a) b = rw (add.suc a b) (
      ap (λ t. get_or mem (p % cap) 0 ∷ t)
        (window-append mem (p + 1) a b
          ∙ ap (λ q. window mem (p + 1) a ++ window mem q b) (omega arith)))

  -- A write past a window leaves it alone.
  window-set_ne :
      (mem : Bytes) (x p n d : ℕ)
      → n ≤ d
      → d < cap
      → window (set mem ((p + d) % cap) x) p n ≡ window mem p n
  window-set_ne mem x p zero d h lt = refl
  window-set_ne mem x p (suc n) d h lt =
      ap₂ ◌∷◌
        (get_or-set_ne mem ((p + d) % cap) (p % cap) x 0
          (λ e. mod-ne cap p d (omega arith) lt (sym e)))
        (ap (λ q. window (set mem (q % cap) x) (p + 1) n) {x = p + d} {y = p + 1 + (d - 1)}
            (omega arith)
          ∙ window-set_ne mem x (p + 1) n (d - 1) (omega arith) (omega arith))

  pub window-ring_put :
      (xs mem : Bytes) (p n : ℕ)
      → n + length xs ≤ cap
      → cap ≤ length mem
      → window (ring_put mem (p + n) xs) p (n + length xs) ≡ window mem p n ++ xs
  window-ring_put [] mem p n h fits = rw (add-zero, append-nil)
  window-ring_put (x ∷ xs) mem p n h fits =
      ap₂ (λ q k. window (ring_put mem' q xs) p k) {x = p + n + 1} {y = p + (n + 1)} (omega arith)
        (omega arith)
      ∙ window-ring_put xs mem' p (n + 1) (omega arith)
          (omega (arith, length-set mem ((p + n) % cap) x))
      ∙ rw (
        window-append mem' p n 1,
        window-set_ne mem x p n n (omega arith) (omega arith),
        append_assoc,
        get_or-set_self mem ((p + n) % cap) x 0 (omega arith),
      )
    where
      mem' : Bytes
      mem' = set mem ((p + n) % cap) x

  -- Only the place of a position matters.
  pub ring_put-mod : (xs mem : Bytes) (p : ℕ) → ring_put mem (p % cap) xs ≡ ring_put mem p xs
  ring_put-mod [] mem p = refl
  ring_put-mod (x ∷ xs) mem p = rw mod-mod (
      sym (ring_put-mod xs (set mem (p % cap) x) (p % cap + 1))
      ∙ rw mod-add-mod (ring_put-mod xs (set mem (p % cap) x) (p + 1)))

  pub window-mod : (mem : Bytes) (p n : ℕ) → window mem (p % cap) n ≡ window mem p n
  window-mod mem p zero = refl
  window-mod mem p (suc n) = rw mod-mod (
      ap (λ t. get_or mem (p % cap) 0 ∷ t)
        (sym (window-mod mem (p % cap + 1) n) ∙ rw mod-add-mod (window-mod mem (p + 1) n)))

  pub ring_put-append :
      (xs ys mem : Bytes) (p : ℕ)
      → ring_put mem p (xs ++ ys) ≡ ring_put (ring_put mem p xs) (p + length xs) ys
  ring_put-append [] ys mem p = ap (λ q. ring_put mem q ys) (omega arith)
  ring_put-append (x ∷ xs) ys mem p =
      ring_put-append xs ys (set mem (p % cap) x) (p + 1)
      ∙ ap (λ q. ring_put (ring_put (set mem (p % cap) x) (p + 1) xs) q ys) (omega arith)

  copy_in-ring_put :
      (xs mem : Bytes) (p : ℕ) → p + length xs ≤ cap → copy_in mem p xs ≡ ring_put mem p xs
  unfolding copy_in
  copy_in-ring_put [] mem p h = refl
  copy_in-ring_put (x ∷ xs) mem p h =
      rw (mod-eq_of_lt {n = p} {m = cap} (omega arith))
        (copy_in-ring_put xs (set mem p x) (p + 1) (omega arith))

  copy_out-window : (mem : Bytes) (p n : ℕ) → p + n ≤ cap → copy_out mem p n ≡ window mem p n
  unfolding copy_out
  copy_out-window mem p zero h = refl
  copy_out-window mem p (suc n) h =
      rw (mod-eq_of_lt {n = p} {m = cap} (omega arith))
        (ap (λ t. get_or mem p 0 ∷ t) (copy_out-window mem (p + 1) n (omega arith)))

  -- A copy that meets the end of the ring goes on at its start.
  two_chunks_in :
      (offset : ℕ) (src mem : Bytes)
      → offset < cap
      → length src ≤ cap
      → cap < offset + length src
      → copy_in (copy_in mem offset (take (cap - offset) src)) 0 (drop (cap - offset) src)
        ≡ ring_put mem offset src
  two_chunks_in offset src mem h fits over =
      copy_in-ring_put (drop k src) (copy_in mem offset (take k src)) 0
        (omega (arith, length-drop k src))
      ∙ ap (λ t. ring_put t 0 (drop k src))
          (copy_in-ring_put (take k src) mem offset (omega (arith, length-take k src)))
      ∙ ap (λ q. ring_put (ring_put mem offset (take k src)) q (drop k src)) (sym at_end)
      ∙ ring_put-mod (drop k src) (ring_put mem offset (take k src)) (offset + length (take k src))
      ∙ sym (ring_put-append (take k src) (drop k src) mem offset)
      ∙ rw (take-append-drop k src)
    where
      k : ℕ
      k = cap - offset

      at_end : (offset + length (take k src)) % cap ≡ 0
      at_end = ap (λ q. q % cap) {y = cap} (omega (arith, length-take k src)) ∙ mod_self cap

  chunk_lem :
      (offset : ℕ)
      → offset < cap
      → cap < u32_mod
      → (cap + u32_mod - offset) % u32_mod ≡ cap - offset
  chunk_lem offset h c = omega arith

  two_chunks_out :
      (offset size : ℕ) (mem : Bytes)
      → offset < cap
      → size ≤ cap
      → cap < offset + size
      → copy_out mem offset (cap - offset) ++ copy_out mem 0 (size - (cap - offset))
        ≡ window mem offset size
  two_chunks_out offset size mem h fits over =
      ap₂ ◌++◌ (copy_out-window mem offset k (omega arith)) (
        copy_out-window mem 0 (size - k) (omega arith)
        ∙ ap (λ q. window mem q (size - k)) (sym at_end)
        ∙ window-mod mem (offset + k) (size - k))
      ∙ sym (window-append mem offset k (size - k))
      ∙ ap (λ n. window mem offset n) (omega arith)
    where
      k : ℕ
      k = cap - offset

      at_end : (offset + k) % cap ≡ 0
      at_end = ap (λ q. q % cap) {y = cap} (omega arith) ∙ mod_self cap

  -- `write_wrapped` stores its bytes at consecutive places of the ring, going round at the end, if
  -- the offset is in the ring, the bytes fit in it and the sum of both is a `u32`.
  pub write_wrapped-ring_put :
      (offset : ℕ) (src mem : Bytes)
      → offset < cap
      → length src ≤ cap
      → offset + length src < u32_mod
      → cap < u32_mod
      → write_wrapped cap offset src mem ≡ ring_put mem offset src
  unfolding write_wrapped
  write_wrapped-ring_put offset src mem h fits small c = elim (dec_le (offset + length src) cap) [
    | yes p ↦ ground (arith, copy_in-ring_put src mem offset p)
    | no p ↦ rw (chunk_lem offset h c) (ground (arith, two_chunks_in offset src mem h fits))
  ]

  -- `read_wrapped` reads the bytes of consecutive places of the ring.
  pub read_wrapped-window :
      (offset size : ℕ) (mem : Bytes)
      → offset < cap
      → size ≤ cap
      → offset + size < u32_mod
      → cap < u32_mod
      → read_wrapped cap offset size mem ≡ window mem offset size
  unfolding read_wrapped
  read_wrapped-window offset size mem h fits small c = elim (dec_le (offset + size) cap) [
    | yes p ↦ ground (arith, copy_out-window mem offset size p)
    | no p ↦
        rw (chunk_lem offset h c, second (omega arith))
          (ground (arith, two_chunks_out offset size mem h fits))
  ]
    where
      second :
          cap < offset + size → (size + u32_mod - (cap - offset)) % u32_mod ≡ size - (cap - offset)
      second over = omega arith
