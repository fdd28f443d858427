-- ===== src/FileOps/Region/Covers.antt =====
-- FileOps.cpp: a region that is mapped lies inside its file.
use iacore.Base.{
  ℕ, ◌+◌, ◌%◌, ◌≤◌, ◌<◌, ◌≡◌, refl, Bool, true, false, not, Option, none, some, ltb, ◌==◌,
  if◌then◌else◌, ok, err, arith,
}
use iacore.FileOps.Region.{
  MemoryMappedRegion, RegionWorld, Mapped, map_at, map_unmapped, map_region, unmap, u64_mod,
  RegionError, empty_region, stat_failed, truncate_failed,
}

-- What a caller of `map` relies on.
pub record IsMapped (offset size : ℕ) (d : Mapped) : Type 0 where
  pub inside : offset + size ≤ d.st_size
  pub ptr : ℕ
  pub at : d.region.m_ptr ≡ some ptr
  pub whole : d.region.m_size ≡ size

map_at-IsMapped :
    (maps : Option ℕ) (r : MemoryMappedRegion) (st_size offset size : ℕ)
    → offset + size ≤ st_size
    → (map_at maps r st_size size).result ≡ ok tt
    → IsMapped offset size (map_at maps r st_size size)
unfolding map_at
map_at-IsMapped none r st_size offset size inside e = cc
map_at-IsMapped (some ptr) r st_size offset size inside e = record {
  inside = inside;
  ptr = ptr;
  at = refl;
  whole = refl;
}

failed-IsMapped :
    (offset size : ℕ) (e : RegionError) (d : Mapped)
    → d.result ≡ err e
    → d.result ≡ ok tt
    → IsMapped offset size d
failed-IsMapped offset size e d is h = cc

either-IsMapped :
    (offset size : ℕ) (test : Bool) (x y : Mapped)
    → (test ≡ true → x.result ≡ ok tt → IsMapped offset size x)
    → (test ≡ false → y.result ≡ ok tt → IsMapped offset size y)
    → (if test then x else y).result ≡ ok tt
    → IsMapped offset size (if test then x else y)
either-IsMapped offset size true x y hx hy e = hx refl e
either-IsMapped offset size false x y hx hy e = hy refl e

map_unmapped-IsMapped :
    (handle : Option ℕ) (r : MemoryMappedRegion) (offset size st_size : ℕ) (w : RegionWorld)
    → offset + size < u64_mod
    → (map_unmapped handle r offset size st_size w).result ≡ ok tt
    → IsMapped offset size (map_unmapped handle r offset size st_size w)
unfolding map_unmapped
map_unmapped-IsMapped none r offset size st_size w small e = cc
map_unmapped-IsMapped (some handle) r offset size st_size w small e =
    let end_offset = (offset + size) % u64_mod in
    either-IsMapped offset size (size == 0) _ _
      (λ t. failed-IsMapped offset size empty_region _ refl)
      (λ t.
        either-IsMapped offset size (not w.stats) _ _
          (λ t. failed-IsMapped offset size stat_failed _ refl)
          (λ t.
            either-IsMapped offset size (ltb st_size end_offset) _ _
              (λ short.
                either-IsMapped offset size w.truncates _ _
                  (λ t. map_at-IsMapped w.maps r end_offset offset size (omega arith))
                  (λ t. failed-IsMapped offset size truncate_failed _ refl))
              (λ long. map_at-IsMapped w.maps r st_size offset size (ground arith))))
      e

-- When `map` succeeds, and the end of the region fits into a `u64`, the file reaches to the end of the region (it is
-- extended when it was shorter), and the region has the requested size and a pointer.
pub map_region-IsMapped :
    (r : MemoryMappedRegion) (handle : Option ℕ) (offset size st_size : ℕ) (w : RegionWorld)
    → offset + size < u64_mod
    → (map_region r handle offset size st_size w).result ≡ ok tt
    → IsMapped offset size (map_region r handle offset size st_size w)
unfolding map_region
map_region-IsMapped r handle offset size st_size w small e =
    let m = map_unmapped-IsMapped handle (unmap r).0 offset size st_size w small e in
    record { inside = m.inside; ptr = m.ptr; at = m.at; whole = m.whole }
