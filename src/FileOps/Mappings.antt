-- ===== src/FileOps/Mappings.antt =====
-- FileOps.cpp: `map_file`, `map_shared_memory` and `unmap_file` with the table `s_mapped_files`. What
-- the operating system answers is an argument; the calls that open, map, unmap, close or unlink
-- something are recorded in their order. The laws are in Mappings/Ledger.
pub mod Ledger
mod Tests
use iacore.Base.{
  ℕ, Bool, true, false, not, Option, none, some, List, [], ◌∷◌, ◌++◌, Bytes, ◌==◌, if◌then◌else◌,
  Result, ok, err,
}

pub data MapError : Type 0 where
  truncate_failed open_failed stat_failed empty_file mmap_failed : MapError

-- The descriptor, the address and the size of a mapping.
pub record Mapping : Type 0 where
  pub fd : ℕ
  pub addr : ℕ
  pub size : ℕ

-- `s_mapped_files`
abbrev pub Table : Type 0
Table = List (ℕ × Mapping)

pub data Call : Type 0 where
  opened closed : (fd : ℕ) → Call
  mapped unmapped : (addr size : ℕ) → Call
  unlinked : (name : Bytes) → Call

pub record Done (A : Type 0) : Type 0 where
  pub result : A
  pub files : Table
  pub calls : List Call

-- `find`, `erase` of what was found, and `[ptr] = mapping`.
unfoldable pub find : ℕ → Table → Option Mapping
find ptr [] = none
find ptr (e ∷ files) = if e.0 == ptr then some e.1 else find ptr files

unfoldable pub erase : ℕ → Table → Table
erase ptr [] = []
erase ptr (e ∷ files) = if e.0 == ptr then files else e ∷ erase ptr files

unfoldable pub store : ℕ → Mapping → Table → Table
store ptr mapping [] = (ptr, mapping) ∷ []
store ptr mapping (e ∷ files) =
    if e.0 == ptr then (ptr, mapping) ∷ files else e ∷ store ptr mapping files

unfoldable pub unmap_found : ℕ → Option Mapping → Table → Done (Unit {0})
unmap_found ptr none files = record { result = tt; files = files; calls = [] }
unmap_found ptr (some m) files = record {
  result = tt;
  files = erase ptr files;
  calls = unmapped m.addr m.size ∷ closed m.fd ∷ [];
}

unfoldable pub unmap_file : ℕ → Table → Done (Unit {0})
unfolding unmap_found find erase
unmap_file ptr files = unmap_found ptr (find ptr files) files

-- The answers of `shm_open`, `ftruncate` and `mmap`.
pub record SharedWorld : Type 0 where
  pub opens : Option ℕ
  pub truncates : Bool
  pub maps : Option ℕ

-- From `mmap` on, for a descriptor that is open.
unfoldable pub map_open : Option ℕ → (fd size : ℕ) → Table → Done (Result MapError ℕ)
map_open none fd size files = record {
  result = err mmap_failed;
  files = files;
  calls = opened fd ∷ closed fd ∷ [];
}
map_open (some addr) fd size files = record {
  result = ok addr;
  files = store addr (record { fd = fd; addr = addr; size = size }) files;
  calls = opened fd ∷ mapped addr size ∷ [];
}

unfoldable pub share_opened :
    Option ℕ
    → (name : Bytes) (size : ℕ) (is_owner : Bool) → SharedWorld
    → Table
    → Done (Result MapError ℕ)
unfolding map_open store
share_opened none name size is_owner w files = record {
  result = err open_failed;
  files = files;
  calls = [];
}
share_opened (some fd) name size true w files =
    if w.truncates then map_open w.maps fd size files else record {
      result = err truncate_failed;
      files = files;
      calls = opened fd ∷ closed fd ∷ unlinked name ∷ [];
    }
share_opened (some fd) name size false w files = map_open w.maps fd size files

unfoldable pub map_shared_memory :
    (name : Bytes) (size : ℕ) (is_owner : Bool) → SharedWorld → Table → Done (Result MapError ℕ)
unfolding share_opened
map_shared_memory name size is_owner w files = share_opened w.opens name size is_owner w files

pub unlink_shared_memory : Bytes → List Call
unlink_shared_memory [] = []
unlink_shared_memory (c ∷ name) = unlinked (c ∷ name) ∷ []

-- The answers of `open`, `fstat` (the file's size) and `mmap`.
pub record FileWorld : Type 0 where
  pub opens : Option ℕ
  pub stats : Option ℕ
  pub maps : Option ℕ

-- `map_file`, whose argument `size` is what `fstat` tells.
unfoldable pub map_sized : Option ℕ → (fd : ℕ) → FileWorld → Table → Done (Result MapError ℕ)
unfolding map_open store
map_sized none fd w files = record {
  result = err stat_failed;
  files = files;
  calls = opened fd ∷ closed fd ∷ [];
}
map_sized (some size) fd w files =
    if size == 0
    then record { result = err empty_file; files = files; calls = opened fd ∷ closed fd ∷ [] }
    else map_open w.maps fd size files

unfoldable pub map_opened : Option ℕ → FileWorld → Table → Done (Result MapError ℕ)
unfolding map_sized
map_opened none w files = record { result = err open_failed; files = files; calls = [] }
map_opened (some fd) w files = map_sized w.stats fd w files

unfoldable pub map_file : FileWorld → Table → Done (Result MapError ℕ)
unfolding map_opened
map_file w files = map_opened w.opens w files
