-- ===== src/Ipc/Layout/Tests.antt =====
-- IPC.cpp: the default size by evaluation, and the theorems at concrete sizes.
use iacore.Base.{◌≡◌, refl, arith}
use iacore.Ipc.Layout.{divide}
use iacore.Ipc.Layout.Regions.{IsDivided, divide-IsDivided}

default_size : (divide 4194304).mino_data_offset ≡ 2097344
unfolding divide
default_size = refl

divide-IsDivided_example : IsDivided 4194304 (divide 4194304)
divide-IsDivided_example = divide-IsDivided 4194304 (omega arith) (omega arith)
