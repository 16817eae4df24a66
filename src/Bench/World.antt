-- ===== src/Bench/World.antt =====
-- hw1: what the programs act on, and how a workload may end: it returns, or it calls `exit(1)`.
use file_system_homework.Base.{
  ℕ, zero, suc, ◌-◌, Bool, false, not, List, [], ◌∷◌, Option, some, none, if◌then◌else◌,
}

-- `FILE_SIZE`, `BLOCK_SIZE`, `WRITE_BLOCK_SIZE` and `RAND_OP_TIMES`.
pub record Sizes : Type 0 where
  pub file_size : ℕ
  pub block_size : ℕ
  pub write_size : ℕ
  pub times : ℕ

-- The file `FILENAME`, the descriptors and mappings that are open, how often `rand` was called, and all that was read into a
-- buffer, one read after the other.
pub record World : Type 0 where
  pub file : Option (List ℕ)
  pub open_fds : ℕ
  pub mappings : ℕ
  pub drawn : ℕ
  pub reads : List (List ℕ)

-- Whether `fopen` or `open`, and `mmap`, succeed in a workload.
pub record Calls : Type 0 where
  pub opens : Bool
  pub maps : Bool

pub data Result : Type 0 where
  returned : World → Result
  exited : World → Result

abbrev pub Workload : Type 0
Workload = Calls → World → Result

abbrev pub contents : World → List ℕ
contents w = elim w.file [ none ↦ [] | some bytes ↦ bytes ]

-- A file that is not there cannot be opened without "w".
abbrev pub can_open : Calls → World → Bool
can_open c w = elim w.file [ none ↦ false | some bytes ↦ c.opens ]

abbrev pub open_fd : World → World
open_fd w = record w { open_fds = suc w.open_fds }

abbrev pub close_fd : World → World
close_fd w = record w { open_fds = w.open_fds - 1 }

abbrev pub map_file : World → World
map_file w = record w { mappings = suc w.mappings }

abbrev pub unmap_file : World → World
unmap_file w = record w { mappings = w.mappings - 1 }

-- `exit(1)` unless the file opens; it is closed in the end.
abbrev pub with_file : Bool → (World → World) → World → Result
with_file ok body w = if not ok then exited w else returned (close_fd (body (open_fd w)))

-- The same with a mapping of the file; if only `mmap` fails, the descriptor is still open.
abbrev pub with_mapping : Bool → Bool → (World → World) → World → Result
with_mapping ok mapped body w =
    if not ok
    then exited w
    else if not mapped
    then exited (open_fd w)
    else returned (close_fd (unmap_file (body (map_file (open_fd w)))))

-- The calls of `rand` from the `k`-th on.
unfoldable pub draws : (ℕ → ℕ) → (n k : ℕ) → List ℕ
draws rand zero k = []
draws rand (suc n) k = rand k ∷ draws rand n (suc k)

-- What each of the three programs offers to its `main`.
pub record Program : Type 0 where
  pub create_file : Workload
  pub sequential_read : Workload
  pub sequential_write : Workload
  pub random_read : Workload
  pub random_buffered_write : Workload
  pub random_synchronous_write : Workload
