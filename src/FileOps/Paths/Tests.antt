-- ===== src/FileOps/Paths/Tests.antt =====
-- FileOps.cpp: paths by evaluation, and the theorem at one of them.
use iacore.Base.{◌≡◌, refl, codes}
use iacore.FileOps.Paths.{normalize_executable_path}

normalize_tool : normalize_executable_path (codes "bin/tool.exe") ≡ codes "./bin/tool"
unfolding normalize_executable_path
normalize_tool = refl

normalize_dots : normalize_executable_path (codes "../.exe") ≡ codes "../.exe"
unfolding normalize_executable_path
normalize_dots = refl
