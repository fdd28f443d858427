-- ===== src/FileOps/Region/Tests.antt =====
-- FileOps.cpp: the theorems on a file of 10 bytes that is mapped and extended.
use iacore.Base.{◌≡◌, ◌++◌, refl, true, some, [], arith}
use iacore.FileOps.Region.{
  no_region, RegionWorld, map_region, map_unmapped, map_at, unmap, MemoryMappedRegion,
}
use iacore.FileOps.Region.Ledger
use iacore.FileOps.Region.Ledger.{came, went, Run-destroy}
use iacore.FileOps.Region.Covers.{IsMapped, map_region-IsMapped}

abbrev world : RegionWorld
world = record { stats = true; truncates = true; maps = some 4096 }

abbrev region : MemoryMappedRegion
region = (map_region no_region (some 3) 8 16 10 world).region

Run-one : Ledger.Run region no_region ([] ++ (map_region no_region (some 3) 8 16 10 world).calls)
Run-one = Ledger.maps Ledger.start (some 3) 8 16 10 world

Run-destroy_example :
    came (λ ptr size. size) ([] ++ (map_region no_region (some 3) 8 16 10 world).calls)
    ≡ went
        (λ ptr size. size)
        (([] ++ (map_region no_region (some 3) 8 16 10 world).calls)
          ++ ((unmap region).1 ++ (unmap no_region).1))
Run-destroy_example = Run-destroy (λ ptr size. size) Run-one

map_region-IsMapped_example : IsMapped 8 16 (map_region no_region (some 3) 8 16 10 world)
unfolding map_region map_unmapped map_at
map_region-IsMapped_example =
    map_region-IsMapped no_region (some 3) 8 16 10 world (omega arith) refl
