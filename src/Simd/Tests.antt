-- ===== src/Simd/Tests.antt =====
-- SIMD.hpp: vectors that are functions of the lane, and a computation on them.
use iacore.Base.{
  ℕ, ◌+◌, ◌-◌, ◌*◌, ◌/◌, ◌%◌, ◌^◌, ◌≡◌, refl, bit_and, bit_or, bit_xor, List, [], ◌∷◌, get_or, ltb,
  if◌then◌else◌,
}
use iacore.Simd.{
  IntOps, IntVec4, from_values, int_store, set_all, int_plus, int_times, shift_left, clamp,
}
use iacore.Simd.Floats.{FloatOps, FloatVec4, IsFloatLaneWise}

abbrev u32_limit : ℕ
u32_limit = 2 ^ 32

abbrev smaller : ℕ → ℕ → ℕ
smaller a b = if ltb a b then a else b

abbrev larger : ℕ → ℕ → ℕ
larger a b = if ltb a b then b else a

abbrev four : (ℕ → ℕ) → List ℕ
four v = v 0 ∷ v 1 ∷ v 2 ∷ v 3 ∷ []

abbrev ints : IntOps
ints = record {
  Vec = ℕ → ℕ;
  set = λ s i. s;
  load_lanes = λ values i. get_or values i 0;
  store_lanes = four;
  add = λ v w i. (v i + w i) % u32_limit;
  sub = λ v w i. (v i + u32_limit - w i) % u32_limit;
  mul = λ v w i. v i * w i % u32_limit;
  bitwise_and = λ v w i. bit_and (v i) (w i);
  bitwise_or = λ v w i. bit_or (v i) (w i);
  bitwise_xor = λ v w i. bit_xor (v i) (w i);
  saturated_add = λ v w i. smaller (v i + w i) (u32_limit - 1);
  saturated_sub = λ v w i. v i - w i;
  minimum = λ v w i. smaller (v i) (w i);
  maximum = λ v w i. larger (v i) (w i);
  bitwise_not = λ v i. u32_limit - 1 - v i;
  shift_left_same = λ v amount i. v i * 2 ^ amount % u32_limit;
  shift_right_same = λ v amount i. v i / 2 ^ amount;
  mul_add = λ u v w i. (u i * v i + w i) % u32_limit;
}

-- Twice the input plus itself shifted, between 5 and 100.
abbrev kernel : IntVec4 ints → IntVec4 ints
kernel v = clamp (int_plus (int_times v (set_all 2)) (shift_left v 3)) 5 100

clamped : int_store (kernel (from_values {H = ints} 0 1 7 1000)) ≡ 5 ∷ 10 ∷ 70 ∷ 100 ∷ []
unfolding from_values int_store clamp int_plus int_times shift_left set_all
clamped = refl

-- Numbers with a reciprocal root of their own.
abbrev floats : FloatOps
floats = record {
  Float = ℕ;
  Vec = ℕ → ℕ;
  set = λ s i. s;
  load_lanes = λ values i. get_or values i 0;
  store_lanes = four;
  add = λ v w i. v i + w i;
  sub = λ v w i. v i - w i;
  mul = λ v w i. v i * w i;
  div = λ v w i. v i / w i;
  minimum = λ v w i. smaller (v i) (w i);
  maximum = λ v w i. larger (v i) (w i);
  mul_add = λ u v w i. u i * v i + w i;
  absolute = λ v. v;
  square_root = λ v. v;
  approximate_reciprocal_sqrt = λ v i. 1000 / v i;
  sum_of_lanes = λ v i. v 0 + v 1 + v 2 + v 3;
  reduce_sum = λ v. v 0 + v 1 + v 2 + v 3;
}

abbrev vector : FloatVec4 floats
vector = record { m_data = λ i. i + 1 }

floats-IsFloatLaneWise : IsFloatLaneWise floats (λ v i. v i) (λ a b. a * b) (λ a. 1000 / a)
floats-IsFloatLaneWise = record {
  mul_lane = λ v w i. refl;
  rsqrt_lane = λ v i. refl;
  sum_lane = λ v i. refl;
}
