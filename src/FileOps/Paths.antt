-- ===== src/FileOps/Paths.antt =====
-- FileOps.cpp: `normalize_executable_path`, on a Unix system. A path is its text. The extension of a
-- path is what its last name has from the last dot on, unless the dot is the first character. The
-- law is in Paths/Direct.
pub mod Direct
mod Tests
use iacore.Base.{
  ℕ, Bool, true, false, ◌&&◌, not, Option, none, some, [], ◌∷◌, ◌++◌, Bytes, codes, ◌==◌,
  if◌then◌else◌,
}

pub starts_with : Bytes → Bytes → Bool
starts_with [] path = true
starts_with (c ∷ prefix) [] = false
starts_with (c ∷ prefix) (d ∷ path) = if c == d then starts_with prefix path else false

-- The whole text is ".exe".
pub is_exe : Bytes → Bool
is_exe [] = false
is_exe (c0 ∷ []) = false
is_exe (c0 ∷ c1 ∷ []) = false
is_exe (c0 ∷ c1 ∷ c2 ∷ []) = false
is_exe (c0 ∷ c1 ∷ c2 ∷ c3 ∷ []) = c0 == b'.' && (c1 == b'e' && (c2 == b'x' && c3 == b'e'))
is_exe (c0 ∷ c1 ∷ c2 ∷ c3 ∷ c4 ∷ rest) = false

-- `extension() == ".exe"` and `replace_extension("")`; `before` is the character before the text.
pub without_exe : (before : ℕ) → Bytes → Bytes
unfolding is_exe
without_exe before [] = []
without_exe before (c ∷ path) =
    if is_exe (c ∷ path) && not (before == b'/') then [] else c ∷ without_exe c path

pub is_relative : Bytes → Bool
is_relative [] = true
is_relative (c ∷ path) = not (c == b'/')

pub with_directory : Bytes → Bytes
unfolding is_relative starts_with
with_directory path =
    if is_relative path
    then if not (starts_with (codes "./") path) && not (starts_with (codes "../") path)
      then codes "./" ++ path
      else path
    else path

pub normalize_executable_path : Bytes → Bytes
unfolding without_exe with_directory
normalize_executable_path path = with_directory (without_exe b'/' path)
