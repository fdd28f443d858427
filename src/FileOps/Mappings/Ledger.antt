-- ===== src/FileOps/Mappings/Ledger.antt =====
-- FileOps.cpp: whatever is mapped and unmapped, no descriptor and no mapping is lost or given up
-- twice.
use iacore.Base.{
  ℕ, ◌+◌, ◌≡◌, refl, sym, ap, Bool, true, false, inl, inr, Option, none, some, List, [], ◌∷◌, ◌++◌,
  Bytes, ◌==◌, Bool-cases, Option-cases, arith,
}
use iacore.FileOps.Mappings.{
  Mapping, Table, Call, opened, closed, mapped, unmapped, unlinked, Done, find, erase, store,
  unmap_file, SharedWorld, map_open, share_opened, map_shared_memory, FileWorld, map_sized,
  map_opened, map_file,
}

-- With a weight for each descriptor and one for each mapping: what calls acquire, what they give up,
-- and what the table has.
unfoldable pub came : (ℕ → ℕ) → (ℕ → ℕ → ℕ) → List Call → ℕ
came a b [] = 0
came a b (opened fd ∷ calls) = a fd + came a b calls
came a b (mapped addr size ∷ calls) = b addr size + came a b calls
came a b (closed fd ∷ calls) = came a b calls
came a b (unmapped addr size ∷ calls) = came a b calls
came a b (unlinked name ∷ calls) = came a b calls

unfoldable pub went : (ℕ → ℕ) → (ℕ → ℕ → ℕ) → List Call → ℕ
went a b [] = 0
went a b (closed fd ∷ calls) = a fd + went a b calls
went a b (unmapped addr size ∷ calls) = b addr size + went a b calls
went a b (opened fd ∷ calls) = went a b calls
went a b (mapped addr size ∷ calls) = went a b calls
went a b (unlinked name ∷ calls) = went a b calls

unfoldable pub has : (ℕ → ℕ) → (ℕ → ℕ → ℕ) → Table → ℕ
has a b [] = 0
has a b (e ∷ files) = (a e.1.fd + b e.1.addr e.1.size) + has a b files

-- `mmap` gives an address that no mapping of the table has.
abbrev pub IsNew : Option ℕ → Table → Type 0
IsNew maps files = (addr : ℕ) → maps ≡ some addr → find addr files ≡ none

-- The tables that calls lead to, and all that was called, in order.
pub data Run : Table → List Call → Type 0 where
  start : Run [] []
  shares :
      {files : Table} {calls : List Call}
      → Run files calls
      → (name : Bytes) (size : ℕ) (is_owner : Bool) (w : SharedWorld) → IsNew w.maps files
      → Run
          (map_shared_memory name size is_owner w files).files
          (calls ++ (map_shared_memory name size is_owner w files).calls)
  maps_file :
      {files : Table} {calls : List Call}
      → Run files calls
      → (w : FileWorld) → IsNew w.maps files
      → Run (map_file w files).files (calls ++ (map_file w files).calls)
  unmaps :
      {files : Table} {calls : List Call}
      → Run files calls
      → (ptr : ℕ) → Run (unmap_file ptr files).files (calls ++ (unmap_file ptr files).calls)

same_mapping : (x y : Mapping) → some x ≡ some y → x ≡ y
same_mapping x y h = cc

module _ (a : ℕ → ℕ) (b : ℕ → ℕ → ℕ) where
  came-append : (xs ys : List Call) → came a b (xs ++ ys) ≡ came a b xs + came a b ys
  unfolding came
  came-append [] ys = omega arith
  came-append (opened fd ∷ xs) ys = omega (arith, came-append xs ys)
  came-append (mapped addr size ∷ xs) ys = omega (arith, came-append xs ys)
  came-append (closed fd ∷ xs) ys = came-append xs ys
  came-append (unmapped addr size ∷ xs) ys = came-append xs ys
  came-append (unlinked name ∷ xs) ys = came-append xs ys

  went-append : (xs ys : List Call) → went a b (xs ++ ys) ≡ went a b xs + went a b ys
  unfolding went
  went-append [] ys = omega arith
  went-append (closed fd ∷ xs) ys = omega (arith, went-append xs ys)
  went-append (unmapped addr size ∷ xs) ys = omega (arith, went-append xs ys)
  went-append (opened fd ∷ xs) ys = went-append xs ys
  went-append (mapped addr size ∷ xs) ys = went-append xs ys
  went-append (unlinked name ∷ xs) ys = went-append xs ys

  -- What one call does to the balance.
  IsBalanced : {A : Type 0} → Table → Done A → Type 0
  IsBalanced files d = came a b d.calls + has a b files ≡ went a b d.calls + has a b d.files

  has-store :
      (ptr : ℕ) (m : Mapping) (files : Table)
      → find ptr files ≡ none
      → has a b (store ptr m files) ≡ (a m.fd + b m.addr m.size) + has a b files
  unfolding has store find
  has-store ptr m [] new = refl
  has-store ptr m (e ∷ files) new = elim (Bool-cases (e.0 == ptr)) [
    | inl same ↦ absurd (rw same at new)
    | inr other ↦ rw other (omega (arith, has-store ptr m files (rw other at new)))
  ]
    where
      absurd :
          some e.1 ≡ none
          → has a b (store ptr m (e ∷ files)) ≡ (a m.fd + b m.addr m.size) + has a b (e ∷ files)
      absurd h = cc

  has-erase :
      (ptr : ℕ) (m : Mapping) (files : Table)
      → find ptr files ≡ some m
      → (a m.fd + b m.addr m.size) + has a b (erase ptr files) ≡ has a b files
  unfolding has erase find
  has-erase ptr m [] found = cc
  has-erase ptr m (e ∷ files) found = elim (Bool-cases (e.0 == ptr)) [
    | inl same ↦ first (rw same at found) same
    | inr other ↦ rw other (omega (arith, has-erase ptr m files (rw other at found)))
  ]
    where
      first :
          some e.1 ≡ some m
          → (e.0 == ptr) ≡ true
          → (a m.fd + b m.addr m.size) + has a b (erase ptr (e ∷ files)) ≡ has a b (e ∷ files)
      first is same =
          rw same
            (ap (λ z. (a z.fd + b z.addr z.size) + has a b files) (sym (same_mapping e.1 m is)))

  unmap_file-IsBalanced : (ptr : ℕ) (files : Table) → IsBalanced files (unmap_file ptr files)
  unfolding IsBalanced unmap_file came went
  unmap_file-IsBalanced ptr files = elim (Option-cases (find ptr files)) [
    | inl n ↦ rw n refl
    | inr (m, found) ↦ rw found (omega (arith, has-erase ptr m files found))
  ]

  map_open-IsBalanced :
      (maps : Option ℕ) (fd size : ℕ) (files : Table)
      → IsNew maps files
      → IsBalanced files (map_open maps fd size files)
  unfolding IsBalanced map_open came went
  map_open-IsBalanced none fd size files new = refl
  map_open-IsBalanced (some addr) fd size files new =
      omega
        (arith, has-store addr (record { fd = fd; addr = addr; size = size }) files (new addr refl))

  share_opened-IsBalanced :
      (opens : Option ℕ) (name : Bytes) (size : ℕ) (is_owner : Bool) (w : SharedWorld)
      (files : Table)
      → IsNew w.maps files
      → IsBalanced files (share_opened opens name size is_owner w files)
  unfolding IsBalanced share_opened came went
  share_opened-IsBalanced none name size is_owner w files new = refl
  share_opened-IsBalanced (some fd) name size true w files new = elim (Bool-cases w.truncates) [
    | inl done ↦ simp done (map_open-IsBalanced w.maps fd size files new)
    | inr refused ↦ simp refused
  ]
  share_opened-IsBalanced (some fd) name size false w files new =
      map_open-IsBalanced w.maps fd size files new

  map_sized-IsBalanced :
      (stats : Option ℕ) (fd : ℕ) (w : FileWorld) (files : Table)
      → IsNew w.maps files
      → IsBalanced files (map_sized stats fd w files)
  unfolding IsBalanced map_sized came went
  map_sized-IsBalanced none fd w files new = refl
  map_sized-IsBalanced (some size) fd w files new = elim (Bool-cases (size == 0)) [
    | inl empty ↦ rw empty refl
    | inr filled ↦ rw filled (map_open-IsBalanced w.maps fd size files new)
  ]

  map_opened-IsBalanced :
      (opens : Option ℕ) (w : FileWorld) (files : Table)
      → IsNew w.maps files
      → IsBalanced files (map_opened opens w files)
  unfolding IsBalanced map_opened came went
  map_opened-IsBalanced none w files new = refl
  map_opened-IsBalanced (some fd) w files new = map_sized-IsBalanced w.stats fd w files new

  after-IsBalanced :
      {A : Type 0} (files : Table) (calls : List Call) (d : Done A)
      → came a b calls ≡ went a b calls + has a b files
      → IsBalanced files d
      → came a b (calls ++ d.calls) ≡ went a b (calls ++ d.calls) + has a b d.files
  unfolding IsBalanced
  after-IsBalanced files calls d before balanced =
      omega (arith, before, balanced, came-append calls d.calls, went-append calls d.calls)

  -- Whatever was mapped and unmapped, and whichever calls of the system failed: each descriptor that was opened was
  -- closed once or is in the table, and each mapping was unmapped once, with its size, or is in the table. (The weights
  -- `a` and `b` count what one wants to count.)
  pub Run-balance :
      {files : Table} {calls : List Call}
      → Run files calls
      → came a b calls ≡ went a b calls + has a b files
  unfolding came went has map_shared_memory map_file
  Run-balance start = refl
  Run-balance (shares {files} {calls} run name size is_owner w new) =
      after-IsBalanced files calls (map_shared_memory name size is_owner w files) (Run-balance run)
        (share_opened-IsBalanced w.opens name size is_owner w files new)
  Run-balance (maps_file {files} {calls} run w new) =
      after-IsBalanced files calls (map_file w files) (Run-balance run)
        (map_opened-IsBalanced w.opens w files new)
  Run-balance (unmaps {files} {calls} run ptr) =
      after-IsBalanced files calls (unmap_file ptr files) (Run-balance run)
        (unmap_file-IsBalanced ptr files)
