-- ===== src/Version/Tests.antt =====
-- PCH.hpp: two versions, and two that have the same number.
use iacore.Base.{◌≡◌, refl, ltb, arith}
use iacore.Version.{Version, to_u64}
use iacore.Version.Order.{precedes, Fits, to_u64-precedes}

abbrev older : Version
older = record { major = 1; minor = 9; patch = 300 }

abbrev newer : Version
newer = record { major = 2; minor = 0; patch = 0 }

to_u64-precedes_example : ltb (to_u64 older) (to_u64 newer) ≡ precedes older newer
unfolding Fits
to_u64-precedes_example =
    to_u64-precedes older newer (omega arith, omega arith, omega arith)
      (omega arith, omega arith, omega arith)

-- A patch of 2 ^ 16 counts as the next minor version.
same_number :
    to_u64 (record { major = 1; minor = 2; patch = 65536 })
    ≡ to_u64 (record { major = 1; minor = 3; patch = 0 })
unfolding to_u64
same_number = refl
