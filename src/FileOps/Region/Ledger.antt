-- ===== src/FileOps/Region/Ledger.antt =====
-- FileOps.cpp: each mapping of two regions, which may be moved into one another, is given up once.
use iacore.Base.{
  ℕ, ◌+◌, ◌≡◌, refl, ap, Bool, true, false, not, Option, none, some, List, [], ◌∷◌, ◌++◌, ltb, ◌==◌,
  if◌then◌else◌, arith, ◌%◌,
}
use iacore.FileOps.Region.{
  MemoryMappedRegion, no_region, RegionCall, mapped, unmapped, synced, unmap_at, unmap, move_assign,
  RegionWorld, Mapped, map_at, map_unmapped, map_region, u64_mod,
}

-- With a weight for each mapping: what calls map, what they unmap, and what a region has.
unfoldable pub came : (ℕ → ℕ → ℕ) → List RegionCall → ℕ
came b [] = 0
came b (mapped ptr size ∷ calls) = b ptr size + came b calls
came b (unmapped ptr size ∷ calls) = came b calls
came b (synced ptr size ∷ calls) = came b calls

unfoldable pub went : (ℕ → ℕ → ℕ) → List RegionCall → ℕ
went b [] = 0
went b (unmapped ptr size ∷ calls) = b ptr size + went b calls
went b (mapped ptr size ∷ calls) = went b calls
went b (synced ptr size ∷ calls) = went b calls

unfoldable pub weight : (ℕ → ℕ → ℕ) → Option ℕ → ℕ → ℕ
weight b none size = 0
weight b (some ptr) size = b ptr size

-- What can happen to two regions; `swaps` lets the other one be the first.
pub data Run : MemoryMappedRegion → MemoryMappedRegion → List RegionCall → Type 0 where
  start : Run no_region no_region []
  maps :
      {x y : MemoryMappedRegion} {calls : List RegionCall}
      → Run x y calls
      → (handle : Option ℕ) (offset size st_size : ℕ) (w : RegionWorld)
      → Run
          (map_region x handle offset size st_size w).region
          y
          (calls ++ (map_region x handle offset size st_size w).calls)
  unmaps :
      {x y : MemoryMappedRegion} {calls : List RegionCall}
      → Run x y calls
      → Run (unmap x).0 y (calls ++ (unmap x).1)
  moves :
      {x y : MemoryMappedRegion} {calls : List RegionCall}
      → Run x y calls
      → Run (move_assign x y).0.0 (move_assign x y).0.1 (calls ++ (move_assign x y).1)
  swaps : {x y : MemoryMappedRegion} {calls : List RegionCall} → Run x y calls → Run y x calls

module _ (b : ℕ → ℕ → ℕ) where
  came-append : (xs ys : List RegionCall) → came b (xs ++ ys) ≡ came b xs + came b ys
  unfolding came
  came-append [] ys = omega arith
  came-append (mapped ptr size ∷ xs) ys = omega (arith, came-append xs ys)
  came-append (unmapped ptr size ∷ xs) ys = came-append xs ys
  came-append (synced ptr size ∷ xs) ys = came-append xs ys

  went-append : (xs ys : List RegionCall) → went b (xs ++ ys) ≡ went b xs + went b ys
  unfolding went
  went-append [] ys = omega arith
  went-append (unmapped ptr size ∷ xs) ys = omega (arith, went-append xs ys)
  went-append (mapped ptr size ∷ xs) ys = went-append xs ys
  went-append (synced ptr size ∷ xs) ys = went-append xs ys

  unfoldable owned : MemoryMappedRegion → ℕ
  owned r = weight b r.m_ptr r.m_size

  -- `unmap` maps nothing, gives up what the region has, and leaves it with nothing.
  unmap_at_lem :
      (ptr : Option ℕ) (r : MemoryMappedRegion)
      → r.m_ptr ≡ ptr
      → (came b (unmap_at ptr r).1 ≡ 0)
        × (went b (unmap_at ptr r).1 ≡ weight b ptr r.m_size)
        × ((unmap_at ptr r).0.m_ptr ≡ none)
  unfolding unmap_at came went weight
  unmap_at_lem none r is = (refl, refl, is)
  unmap_at_lem (some ptr) r is = (refl, omega arith, refl)

  unmap_lem :
      (r : MemoryMappedRegion)
      → (came b (unmap r).1 ≡ 0) × (went b (unmap r).1 ≡ owned r) × ((unmap r).0.m_ptr ≡ none)
  unfolding unmap owned
  unmap_lem r = unmap_at_lem r.m_ptr r refl

  -- Mapping a region that has nothing.
  IsNoted : Mapped → Type 0
  IsNoted d = (came b d.calls ≡ owned d.region) × (went b d.calls ≡ 0)

  no_mapping : (r : MemoryMappedRegion) → r.m_ptr ≡ none → (0 ≡ owned r) × (Path ℕ 0 0)
  unfolding owned weight
  no_mapping r is = (simp is, refl)

  map_at-IsNoted :
      (maps : Option ℕ) (r : MemoryMappedRegion) (st_size size : ℕ)
      → r.m_ptr ≡ none
      → IsNoted (map_at maps r st_size size)
  unfolding IsNoted map_at came went owned weight
  map_at-IsNoted none r st_size size is = no_mapping r is
  map_at-IsNoted (some ptr) r st_size size is = (omega arith, refl)

  either-IsNoted :
      (test : Bool) (x y : Mapped) → IsNoted x → IsNoted y → IsNoted (if test then x else y)
  either-IsNoted true x y hx hy = hx
  either-IsNoted false x y hx hy = hy

  map_unmapped-IsNoted :
      (handle : Option ℕ) (r : MemoryMappedRegion) (offset size st_size : ℕ) (w : RegionWorld)
      → r.m_ptr ≡ none
      → IsNoted (map_unmapped handle r offset size st_size w)
  unfolding IsNoted map_unmapped came went
  map_unmapped-IsNoted none r offset size st_size w is = no_mapping r is
  map_unmapped-IsNoted (some handle) r offset size st_size w is =
      let end_offset = (offset + size) % u64_mod in
      let nothing = no_mapping r is in
      either-IsNoted (size == 0) _ _ nothing (
        either-IsNoted (not w.stats) _ _ nothing (
          either-IsNoted (ltb st_size end_offset) _ _
            (either-IsNoted w.truncates _ _ (map_at-IsNoted w.maps r end_offset size is) nothing)
            (map_at-IsNoted w.maps r st_size size is)))

  -- Whatever is mapped, unmapped and moved between two regions, and whichever calls of the system fail: each mapping
  -- was unmapped once, with its size, or is held by one of the regions. (The weight `b` counts what one wants to
  -- count.)
  Run-owned :
      {x y : MemoryMappedRegion} {calls : List RegionCall}
      → Run x y calls
      → came b calls ≡ went b calls + (owned x + owned y)
  unfolding came went owned weight map_region move_assign IsNoted
  Run-owned start = refl
  Run-owned (maps {x} {y} {calls} run handle offset size st_size w) =
      let (no_new, all_old, free) = unmap_lem x in
      let d = map_unmapped handle (unmap x).0 offset size st_size w in
      let (noted, none_gone) = map_unmapped-IsNoted handle (unmap x).0 offset size st_size w free in
      omega (
        arith,
        Run-owned run,
        no_new,
        all_old,
        noted,
        none_gone,
        came-append calls ((unmap x).1 ++ d.calls),
        went-append calls ((unmap x).1 ++ d.calls),
        came-append (unmap x).1 d.calls,
        went-append (unmap x).1 d.calls,
      )
  Run-owned (unmaps {x} {y} {calls} run) =
      let (no_new, all_old, free) = unmap_lem x in
      omega (
        arith,
        Run-owned run,
        no_new,
        all_old,
        ap (λ p. weight b p (unmap x).0.m_size) free,
        came-append calls (unmap x).1,
        went-append calls (unmap x).1,
      )
  Run-owned (moves {x} {y} {calls} run) =
      let (no_new, all_old, free) = unmap_lem x in
      omega (
        arith,
        Run-owned run,
        no_new,
        all_old,
        came-append calls (unmap x).1,
        went-append calls (unmap x).1,
      )
  Run-owned (swaps run) = omega (arith, Run-owned run)

  -- When both regions are destroyed at last, each mapping that was made has been unmapped exactly once.
  pub Run-destroy :
      {x y : MemoryMappedRegion} {calls : List RegionCall}
      → Run x y calls
      → came b calls ≡ went b (calls ++ ((unmap x).1 ++ (unmap y).1))
  Run-destroy {x} {y} {calls} run = omega (
    arith,
    Run-owned run,
    (unmap_lem x).1,
    (unmap_lem y).1,
    went-append calls ((unmap x).1 ++ (unmap y).1),
    went-append (unmap x).1 (unmap y).1,
  )
