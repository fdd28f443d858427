-- ===== src/FileOps/Region.antt =====
-- FileOps.cpp: `FileOps::MemoryMappedRegion`. The file is its length; what the operating system
-- answers is an argument, and the calls of `mmap`, `munmap` and `msync` are recorded. `u64`
-- arithmetic is taken modulo 2 ^ 64. The laws are in Region/Ledger and Region/Covers.
pub mod Ledger
pub mod Covers
mod Tests
use iacore.Base.{
  ℕ, ◌+◌, ◌%◌, ◌^◌, Bool, true, false, not, Option, none, some, List, [], ◌∷◌, ◌++◌, ltb, ◌==◌,
  if◌then◌else◌, Result, ok, err,
}

-- `m_ptr` is `none` for the null pointer.
pub record MemoryMappedRegion : Type 0 where
  pub m_ptr : Option ℕ
  pub m_size : ℕ

abbrev pub no_region : MemoryMappedRegion
no_region = record { m_ptr = none; m_size = 0 }

pub data RegionError : Type 0 where
  invalid_handle empty_region stat_failed truncate_failed mmap_failed : RegionError

pub data RegionCall : Type 0 where
  mapped unmapped synced : (ptr size : ℕ) → RegionCall

abbrev pub u64_mod : ℕ
u64_mod = 2 ^ 64

unfoldable pub unmap_at : Option ℕ → MemoryMappedRegion → MemoryMappedRegion × List RegionCall
unmap_at none r = (r, [])
unmap_at (some ptr) r = (record { m_ptr = none; m_size = 0 }, unmapped ptr r.m_size ∷ [])

unfoldable pub unmap : MemoryMappedRegion → MemoryMappedRegion × List RegionCall
unfolding unmap_at
unmap r = unmap_at r.m_ptr r

-- `std::move` assignment to `r` of another region: what is left of both.
unfoldable pub move_assign :
    MemoryMappedRegion
    → MemoryMappedRegion
    → (MemoryMappedRegion × MemoryMappedRegion) × List RegionCall
unfolding unmap
move_assign r other = (
  (record { m_ptr = other.m_ptr; m_size = other.m_size }, record { m_ptr = none; m_size = 0 }),
  (unmap r).1,
)

-- The answers of `fstat` (whether it succeeds), `ftruncate` and `mmap`.
pub record RegionWorld : Type 0 where
  pub stats : Bool
  pub truncates : Bool
  pub maps : Option ℕ

-- The result, the region, the length of the file and the calls.
pub record Mapped : Type 0 where
  pub result : Result RegionError (Unit {0})
  pub region : MemoryMappedRegion
  pub st_size : ℕ
  pub calls : List RegionCall

-- From `mmap` on.
unfoldable pub map_at : Option ℕ → MemoryMappedRegion → (st_size size : ℕ) → Mapped
map_at none r st_size size = record {
  result = err mmap_failed;
  region = r;
  st_size = st_size;
  calls = [];
}
map_at (some ptr) r st_size size = record {
  result = ok tt;
  region = record { m_ptr = some ptr; m_size = size };
  st_size = st_size;
  calls = mapped ptr size ∷ [];
}

-- The checks, for the region that `unmap` leaves.
unfoldable pub map_unmapped :
    Option ℕ → MemoryMappedRegion → (offset size st_size : ℕ) → RegionWorld → Mapped
unfolding map_at
map_unmapped none r offset size st_size w = record {
  result = err invalid_handle;
  region = r;
  st_size = st_size;
  calls = [];
}
map_unmapped (some handle) r offset size st_size w =
    let end_offset = (offset + size) % u64_mod in
    if size == 0
    then record { result = err empty_region; region = r; st_size = st_size; calls = [] }
    else if not w.stats
    then record { result = err stat_failed; region = r; st_size = st_size; calls = [] }
    else if ltb st_size end_offset
    then if w.truncates
      then map_at w.maps r end_offset size
      else record { result = err truncate_failed; region = r; st_size = st_size; calls = [] }
    else map_at w.maps r st_size size

unfoldable pub map_region :
    MemoryMappedRegion → Option ℕ → (offset size st_size : ℕ) → RegionWorld → Mapped
unfolding unmap map_unmapped
map_region r handle offset size st_size w =
    let done = map_unmapped handle (unmap r).0 offset size st_size w in
    record done { calls = (unmap r).1 ++ done.calls }

pub flush_region : MemoryMappedRegion → List RegionCall
flush_region r = sync r.m_ptr
  where
    sync : Option ℕ → List RegionCall
    sync none = []
    sync (some ptr) = synced ptr r.m_size ∷ []
