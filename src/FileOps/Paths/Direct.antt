-- ===== src/FileOps/Paths/Direct.antt =====
-- FileOps.cpp: a normalized path is not looked up in the search path.
use iacore.Base.{◌≡◌, refl, true, false, ◌⊎◌, inl, inr, [], ◌∷◌, Bytes, codes, Bool-cases, arith}
use iacore.FileOps.Paths.{
  starts_with, without_exe, is_relative, with_directory, normalize_executable_path,
}

-- A path that says where the file is: absolute, or relative to the working directory or to the one above.
pub IsDirect : Bytes → Type 0
IsDirect path =
    (starts_with (codes "/") path ≡ true)
    ⊎ (starts_with (codes "./") path ≡ true)
    ⊎ (starts_with (codes "../") path ≡ true)

absolute-IsDirect : (path : Bytes) → is_relative path ≡ false → IsDirect path
unfolding IsDirect is_relative starts_with
absolute-IsDirect [] h = cc
absolute-IsDirect (c ∷ path) h = inl (ground arith)

with_directory-IsDirect : (path : Bytes) → IsDirect (with_directory path)
unfolding with_directory IsDirect
with_directory-IsDirect path = elim (Bool-cases (is_relative path)) [
  | inr absolute ↦ rw absolute (absolute-IsDirect path absolute)
  | inl relative ↦ elim (Bool-cases (starts_with (codes "./") path)) [
    | inl here ↦ rw (relative, here) (inr (inl here))
    | inr not_here ↦ elim (Bool-cases (starts_with (codes "../") path)) [
      | inl above ↦ rw (relative, not_here, above) (inr (inr above))
      | inr not_above ↦ rw (relative, not_here, not_above) (inr (inl refl))
    ]
  ]
]

-- A normalized path is absolute or begins with "./" or "../", so that the call that starts a process takes the file
-- itself and does not look for its name in the search path.
pub normalize_executable_path-IsDirect : (path : Bytes) → IsDirect (normalize_executable_path path)
unfolding normalize_executable_path
normalize_executable_path-IsDirect path = with_directory-IsDirect (without_exe b'/' path)
