-- ===== src/Simd.antt =====
-- Src/IACore/inc/IACore/SIMD.hpp: IntVec4 and FloatVec4. The vectors of the library Highway and its
-- operations are the parameters `IntOps` and `FloatOps`; an array of four values is a list. The laws
-- are in Simd/Floats.
pub mod Floats
mod Tests
use iacore.Base.{ℕ, List, [], ◌∷◌}

-- What Highway offers for vectors of four `u32`.
pub record IntOps : Type 1 where
  pub Vec : Type 0
  pub set : ℕ → Vec
  pub load_lanes : List ℕ → Vec
  pub store_lanes : Vec → List ℕ
  pub add : Vec → Vec → Vec
  pub sub : Vec → Vec → Vec
  pub mul : Vec → Vec → Vec
  pub bitwise_and : Vec → Vec → Vec
  pub bitwise_or : Vec → Vec → Vec
  pub bitwise_xor : Vec → Vec → Vec
  pub saturated_add : Vec → Vec → Vec
  pub saturated_sub : Vec → Vec → Vec
  pub minimum : Vec → Vec → Vec
  pub maximum : Vec → Vec → Vec
  pub bitwise_not : Vec → Vec
  pub shift_left_same : Vec → ℕ → Vec
  pub shift_right_same : Vec → ℕ → Vec
  pub mul_add : Vec → Vec → Vec → Vec

pub record IntVec4 (H : IntOps) : Type 0 where
  pub m_data : H.Vec

-- The constructors and `load`, `store`; the constructor from an array is `load`.
pub set_all : {H : IntOps} → ℕ → IntVec4 H
set_all {H} s = record { m_data = H.set s }

pub int_load : {H : IntOps} → List ℕ → IntVec4 H
int_load {H} values = record { m_data = H.load_lanes values }

pub from_values : {H : IntOps} → ℕ → ℕ → ℕ → ℕ → IntVec4 H
from_values {H} a b c d = record { m_data = H.load_lanes (a ∷ b ∷ c ∷ d ∷ []) }

pub int_store : {H : IntOps} → IntVec4 H → List ℕ
int_store {H} v = H.store_lanes v.m_data

-- The operators `+ - * & | ^`, and the saturated ones.
pub int_plus : {H : IntOps} → IntVec4 H → IntVec4 H → IntVec4 H
int_plus {H} v other = record { m_data = H.add v.m_data other.m_data }

pub int_minus : {H : IntOps} → IntVec4 H → IntVec4 H → IntVec4 H
int_minus {H} v other = record { m_data = H.sub v.m_data other.m_data }

pub int_times : {H : IntOps} → IntVec4 H → IntVec4 H → IntVec4 H
int_times {H} v other = record { m_data = H.mul v.m_data other.m_data }

pub bits_and : {H : IntOps} → IntVec4 H → IntVec4 H → IntVec4 H
bits_and {H} v other = record { m_data = H.bitwise_and v.m_data other.m_data }

pub bits_or : {H : IntOps} → IntVec4 H → IntVec4 H → IntVec4 H
bits_or {H} v other = record { m_data = H.bitwise_or v.m_data other.m_data }

pub bits_xor : {H : IntOps} → IntVec4 H → IntVec4 H → IntVec4 H
bits_xor {H} v other = record { m_data = H.bitwise_xor v.m_data other.m_data }

pub sat_add : {H : IntOps} → IntVec4 H → IntVec4 H → IntVec4 H
sat_add {H} v other = record { m_data = H.saturated_add v.m_data other.m_data }

pub sat_sub : {H : IntOps} → IntVec4 H → IntVec4 H → IntVec4 H
sat_sub {H} v other = record { m_data = H.saturated_sub v.m_data other.m_data }

-- The operators `~ << >>`.
pub bits_not : {H : IntOps} → IntVec4 H → IntVec4 H
bits_not {H} v = record { m_data = H.bitwise_not v.m_data }

pub shift_left : {H : IntOps} → IntVec4 H → ℕ → IntVec4 H
shift_left {H} v amount = record { m_data = H.shift_left_same v.m_data amount }

pub shift_right : {H : IntOps} → IntVec4 H → ℕ → IntVec4 H
shift_right {H} v amount = record { m_data = H.shift_right_same v.m_data amount }

pub mult_add : {H : IntOps} → IntVec4 H → IntVec4 H → IntVec4 H → IntVec4 H
mult_add {H} v multiplier addend = record {
  m_data = H.mul_add v.m_data multiplier.m_data addend.m_data;
}

pub clamp : {H : IntOps} → IntVec4 H → (low high : ℕ) → IntVec4 H
clamp {H} v low high =
    let v_min = H.set low in
    let v_max = H.set high in record { m_data = H.minimum (H.maximum v.m_data v_min) v_max }
