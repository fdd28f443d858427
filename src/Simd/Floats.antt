-- ===== src/Simd/Floats.antt =====
-- SIMD.hpp: FloatVec4. Highway's vectors of four floats and its operations are the parameter
-- `FloatOps`; a float is a value of its type `Float`.
use iacore.Base.{ℕ, ◌≡◌, ap, ◌∙◌, List, [], ◌∷◌}

pub record FloatOps : Type 1 where
  pub Float : Type 0
  pub Vec : Type 0
  pub set : Float → Vec
  pub load_lanes : List Float → Vec
  pub store_lanes : Vec → List Float
  pub add : Vec → Vec → Vec
  pub sub : Vec → Vec → Vec
  pub mul : Vec → Vec → Vec
  pub div : Vec → Vec → Vec
  pub minimum : Vec → Vec → Vec
  pub maximum : Vec → Vec → Vec
  pub mul_add : Vec → Vec → Vec → Vec
  pub absolute : Vec → Vec
  pub square_root : Vec → Vec
  pub approximate_reciprocal_sqrt : Vec → Vec
  pub sum_of_lanes : Vec → Vec
  pub reduce_sum : Vec → Float

pub record FloatVec4 (H : FloatOps) : Type 0 where
  pub m_data : H.Vec

-- The constructors and `load`, `store`; the constructor from an array is `load`.
pub float_set_all : {H : FloatOps} → H.Float → FloatVec4 H
float_set_all {H} s = record { m_data = H.set s }

pub float_load : {H : FloatOps} → List H.Float → FloatVec4 H
float_load {H} values = record { m_data = H.load_lanes values }

pub float_from_values : {H : FloatOps} → H.Float → H.Float → H.Float → H.Float → FloatVec4 H
float_from_values {H} a b c d = record { m_data = H.load_lanes (a ∷ b ∷ c ∷ d ∷ []) }

pub float_store : {H : FloatOps} → FloatVec4 H → List H.Float
float_store {H} v = H.store_lanes v.m_data

-- The operators `+ - * /`.
pub float_plus : {H : FloatOps} → FloatVec4 H → FloatVec4 H → FloatVec4 H
float_plus {H} v other = record { m_data = H.add v.m_data other.m_data }

pub float_minus : {H : FloatOps} → FloatVec4 H → FloatVec4 H → FloatVec4 H
float_minus {H} v other = record { m_data = H.sub v.m_data other.m_data }

pub float_times : {H : FloatOps} → FloatVec4 H → FloatVec4 H → FloatVec4 H
float_times {H} v other = record { m_data = H.mul v.m_data other.m_data }

pub float_over : {H : FloatOps} → FloatVec4 H → FloatVec4 H → FloatVec4 H
float_over {H} v other = record { m_data = H.div v.m_data other.m_data }

pub float_mult_add : {H : FloatOps} → FloatVec4 H → FloatVec4 H → FloatVec4 H → FloatVec4 H
float_mult_add {H} v multiplier addend = record {
  m_data = H.mul_add v.m_data multiplier.m_data addend.m_data;
}

pub float_clamp : {H : FloatOps} → FloatVec4 H → H.Float → H.Float → FloatVec4 H
float_clamp {H} v low high =
    let v_min = H.set low in
    let v_max = H.set high in record { m_data = H.minimum (H.maximum v.m_data v_min) v_max }

pub float_sqrt : {H : FloatOps} → FloatVec4 H → FloatVec4 H
float_sqrt {H} v = record { m_data = H.square_root v.m_data }

pub float_rsqrt : {H : FloatOps} → FloatVec4 H → FloatVec4 H
float_rsqrt {H} v = record { m_data = H.approximate_reciprocal_sqrt v.m_data }

pub float_abs : {H : FloatOps} → FloatVec4 H → FloatVec4 H
float_abs {H} v = record { m_data = H.absolute v.m_data }

pub dot : {H : FloatOps} → FloatVec4 H → FloatVec4 H → H.Float
dot {H} v other = let v_mul = H.mul v.m_data other.m_data in H.reduce_sum v_mul

pub normalize : {H : FloatOps} → FloatVec4 H → FloatVec4 H
normalize {H} v =
    let v_mul = H.mul v.m_data v.m_data in
    let v_len_sq = H.sum_of_lanes v_mul in
    let v_inv_len = H.approximate_reciprocal_sqrt v_len_sq in
    record { m_data = H.mul v.m_data v_inv_len }

-- What Highway documents of the lanes, with the product and the approximate reciprocal root of a float.
pub record IsFloatLaneWise (H : FloatOps) (lane : H.Vec → ℕ → H.Float)
    (product : H.Float → H.Float → H.Float) (rsqrt : H.Float → H.Float) : Type 0 where
  pub mul_lane : (v w : H.Vec) (i : ℕ) → lane (H.mul v w) i ≡ product (lane v i) (lane w i)
  pub rsqrt_lane : (v : H.Vec) (i : ℕ) → lane (H.approximate_reciprocal_sqrt v) i ≡ rsqrt (lane v i)
  pub sum_lane : (v : H.Vec) (i : ℕ) → lane (H.sum_of_lanes v) i ≡ H.reduce_sum v

-- `normalize` multiplies each lane by the reciprocal root of the `dot` of the vector with itself, the same for all lanes.
pub normalize-dot :
    (H : FloatOps) (lane : H.Vec → ℕ → H.Float) (product : H.Float → H.Float → H.Float)
    (rsqrt : H.Float → H.Float) (v : FloatVec4 H) (i : ℕ)
    → IsFloatLaneWise H lane product rsqrt
    → lane (normalize v).m_data i ≡ product (lane v.m_data i) (rsqrt (dot v v))
unfolding normalize dot
normalize-dot H lane product rsqrt v i h =
    let v_mul = H.mul v.m_data v.m_data in
    h.mul_lane v.m_data _ i
    ∙ ap (product (lane v.m_data i))
        (h.rsqrt_lane (H.sum_of_lanes v_mul) i ∙ ap rsqrt (h.sum_lane v_mul i))
