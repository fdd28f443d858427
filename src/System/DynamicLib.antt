-- ===== src/System/DynamicLib.antt =====
-- Src/IACore/inc/IACore/DynamicLib.hpp, on Linux. What `dlopen` and `dlsym` answer is an argument;
-- the handles that are closed are recorded.
use iacore.Base.{
  ℕ, Bool, true, false, ◌&&◌, not, Option, none, some, List, [], ◌∷◌, ◌++◌, Bytes, codes, ◌==◌,
  if◌then◌else◌, Result, ok, err,
}

pub data LibError : Type 0 where
  dlopen_failed not_loaded dlsym_failed : LibError

pub record DynamicLib : Type 0 where
  pub m_handle : Option ℕ

-- `search_path / name`: an absolute name stands for itself.
unfoldable pub ends_with_slash : Bytes → Bool
ends_with_slash [] = false
ends_with_slash (c ∷ []) = c == b'/'
ends_with_slash (c ∷ d ∷ path) = ends_with_slash (d ∷ path)

unfoldable pub join_path : Bytes → Bytes → Bytes
unfolding ends_with_slash
join_path [] name = name
join_path (c ∷ path) [] = if ends_with_slash (c ∷ path) then c ∷ path else (c ∷ path) ++ codes "/"
join_path (c ∷ path) (d ∷ name) =
    if d == b'/'
    then d ∷ name
    else if ends_with_slash (c ∷ path)
    then (c ∷ path) ++ d ∷ name
    else (c ∷ path) ++ b'/' ∷ d ∷ name

-- `has_extension`: the last name has a dot behind its first character and is not "..". `in_name` tells
-- whether the name has begun, `dots` whether it is "." so far, `found` whether a dot was found.
unfoldable pub extension_loop : (in_name dots found : Bool) → Bytes → Bool
extension_loop in_name dots found [] = found
extension_loop in_name dots found (c ∷ path) =
    extension_loop (if c == b'/' then false else true)
      (if c == b'/' then false else if in_name then false else c == b'.')
      (if c == b'/'
        then false
        else if not in_name
        then false
        else if c == b'.'
        then not (dots && is_empty path)
        else found)
      path
  where
    is_empty : Bytes → Bool
    is_empty [] = true
    is_empty (d ∷ rest) = d == b'/'

unfoldable pub has_extension : Bytes → Bool
unfolding extension_loop
has_extension path = extension_loop false false false path

unfoldable pub full_path : Bytes → Bytes → Bytes
unfolding join_path has_extension
full_path search_path name =
    let path = join_path search_path name in
    if not (has_extension path) then path ++ codes ".so" else path

pub load : (dlopen : Bytes → Option ℕ) → Bytes → Bytes → Result LibError DynamicLib
unfolding full_path
load dlopen search_path name = loaded (dlopen (full_path search_path name))
  where
    loaded : Option ℕ → Result LibError DynamicLib
    loaded none = err dlopen_failed
    loaded (some h) = ok (record { m_handle = some h })

pub unload : DynamicLib → DynamicLib × List ℕ
unload lib = (record { m_handle = none }, closes lib.m_handle)
  where
    closes : Option ℕ → List ℕ
    closes none = []
    closes (some h) = h ∷ []

-- The constructor and the assignment that move: this library, the other one, what is closed.
pub moved_lib : DynamicLib → DynamicLib × DynamicLib
moved_lib other = (other, record { m_handle = none })

pub assign_lib : DynamicLib → DynamicLib → (DynamicLib × DynamicLib) × List ℕ
unfolding unload moved_lib
assign_lib this other = (moved_lib other, (unload this).1)

-- `dlsym` gives the symbol, or `dlerror` tells an error.
pub get_symbol : (dlsym : ℕ → Bytes → Option ℕ) → Bytes → DynamicLib → Result LibError ℕ
get_symbol dlsym name lib = in_handle lib.m_handle
  where
    found : Option ℕ → Result LibError ℕ
    found none = err dlsym_failed
    found (some sym) = ok sym

    in_handle : Option ℕ → Result LibError ℕ
    in_handle none = err not_loaded
    in_handle (some h) = found (dlsym h name)

pub is_loaded : DynamicLib → Bool
is_loaded lib = has lib.m_handle
  where
    has : Option ℕ → Bool
    has none = false
    has (some h) = true
