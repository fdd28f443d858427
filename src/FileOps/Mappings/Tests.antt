-- ===== src/FileOps/Mappings/Tests.antt =====
-- FileOps.cpp: the ledger of a file that is mapped and unmapped.
use iacore.Base.{◌+◌, ◌≡◌, refl, some, [], ◌∷◌, ◌++◌}
use iacore.FileOps.Mappings.{
  Table, opened, closed, mapped, unmapped, FileWorld, map_file, map_opened, map_sized, map_open,
  unmap_file, unmap_found, find, store,
}
use iacore.FileOps.Mappings.Ledger
use iacore.FileOps.Mappings.Ledger.{came, went, has, Run-balance}

abbrev world : FileWorld
world = record { opens = some 3; stats = some 100; maps = some 4096 }

abbrev table : Table
table = (map_file world []).files

Run-twice :
    Ledger.Run
      (unmap_file 4096 table).files
      (([] ++ (map_file world []).calls) ++ (unmap_file 4096 table).calls)
unfolding find
Run-twice = Ledger.unmaps (Ledger.maps_file Ledger.start world (λ addr e. refl)) 4096

calls-twice :
    ([] ++ (map_file world []).calls) ++ (unmap_file 4096 table).calls
    ≡ opened 3 ∷ mapped 4096 100 ∷ unmapped 4096 100 ∷ closed 3 ∷ []
unfolding map_file map_opened map_sized map_open unmap_file unmap_found find store
calls-twice = refl

Run-balance_example :
    came
      (λ fd. 1)
      (λ addr size. size)
      (([] ++ (map_file world []).calls) ++ (unmap_file 4096 table).calls)
    ≡ went
        (λ fd. 1)
        (λ addr size. size)
        (([] ++ (map_file world []).calls) ++ (unmap_file 4096 table).calls)
      + has (λ fd. 1) (λ addr size. size) (unmap_file 4096 table).files
Run-balance_example = Run-balance (λ fd. 1) (λ addr size. size) Run-twice
