-- ===== src/System/Environment.antt =====
-- Src/IACore/inc/IACore/Environment.hpp, on a Unix system. The functions of the C library on the
-- environment are the parameter `CEnvironment`.
use iacore.Base.{
  Bool, true, false, not, Option, none, some, [], ◌∷◌, Bytes, if◌then◌else◌, Result, ok, err,
}

pub data EnvironmentError : Type 0 where
  empty_name set_failed unset_failed : EnvironmentError

-- `getenv`, and whether `setenv` and `unsetenv` return 0.
pub record CEnvironment : Type 1 where
  pub Variables : Type 0
  pub getenv : Bytes → Variables → Option Bytes
  pub setenv : Bytes → Bytes → Variables → Bool × Variables
  pub unsetenv : Bytes → Variables → Bool × Variables

pub value_or : Option Bytes → Bytes → Bytes
value_or none default_value = default_value
value_or (some value) default_value = value

module _ (c : CEnvironment) where
  pub find : Bytes → c.Variables → Option Bytes
  find name variables = c.getenv name variables

  pub get : Bytes → (default_value : Bytes) → c.Variables → Bytes
  unfolding find value_or
  get name default_value variables = value_or (find name variables) default_value

  pub set : Bytes → Bytes → c.Variables → Result EnvironmentError (Unit {0}) × c.Variables
  set [] value variables = (err empty_name, variables)
  set (ch ∷ name) value variables =
      let done = c.setenv (ch ∷ name) value variables in
      (if not done.0 then err set_failed else ok tt, done.1)

  pub unset : Bytes → c.Variables → Result EnvironmentError (Unit {0}) × c.Variables
  unset [] variables = (err empty_name, variables)
  unset (ch ∷ name) variables =
      let done = c.unsetenv (ch ∷ name) variables in
      (if not done.0 then err unset_failed else ok tt, done.1)

  pub exists : Bytes → c.Variables → Bool
  unfolding find
  exists name variables = is_some (find name variables)
    where
      is_some : Option Bytes → Bool
      is_some none = false
      is_some (some value) = true
