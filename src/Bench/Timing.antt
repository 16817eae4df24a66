-- ===== src/Bench/Timing.antt =====
-- hw1: `main`, which times the workloads. `tv_sec` and `tv_usec` are `long`, `diff` is `unsigned long`: the
-- difference is taken modulo 2 ^ 64.
use file_system_homework.Base.{ℕ, ◌+◌, ◌-◌, ◌*◌, ◌%◌, ◌^◌, List, [], ◌∷◌}
use file_system_homework.Bench.World.{World, Calls, returned, exited, Workload, Program}

-- `struct timeval`.
pub record Time : Type 0 where
  pub sec : ℕ
  pub usec : ℕ

-- `1000000 * (end.tv_sec - start.tv_sec) + end.tv_usec - start.tv_usec`
unfoldable pub elapsed : Time → Time → ℕ
elapsed start end =
    (1000000 * end.sec + end.usec + (2 ^ 64 - (1000000 * start.sec + start.usec) % 2 ^ 64)) % 2 ^ 64

-- The exit code, the values of `diff` that were printed, and the world at the end.
pub record Run : Type 0 where
  pub code : ℕ
  pub printed : List ℕ
  pub world : World

abbrev pub print_first : ℕ → Run → Run
print_first d r = record r { printed = d ∷ r.printed }

-- The calls of each workload, and what `gettimeofday` gives before and behind it.
pub record Setting : Type 0 where
  pub calls : Calls
  pub start : Time
  pub end : Time

-- `main` from one measurement on; `exit(1)` ends it.
unfoldable pub measure : List (Workload × Setting) → World → Run
measure [] w = record { code = 0; printed = []; world = w }
measure ((f, s) ∷ rest) w = elim (f s.calls w) [
  | exited w' ↦ record { code = 1; printed = []; world = w' }
  | returned w' ↦ print_first (elapsed s.start s.end) (measure rest w')
]

-- The settings of the six workloads; that of `create_file` is not timed.
pub record Settings : Type 0 where
  pub create_file : Calls
  pub sequential_read : Setting
  pub sequential_write : Setting
  pub random_read : Setting
  pub random_buffered_write : Setting
  pub random_synchronous_write : Setting

abbrev pub measured : Program → Settings → List (Workload × Setting)
measured p s =
    (p.sequential_read, s.sequential_read)
    ∷ (p.sequential_write, s.sequential_write)
    ∷ (p.random_read, s.random_read)
    ∷ (p.random_buffered_write, s.random_buffered_write)
    ∷ (p.random_synchronous_write, s.random_synchronous_write)
    ∷ []

unfoldable pub main : Program → Settings → World → Run
main p s w = elim (p.create_file s.create_file w) [
  | exited w' ↦ record { code = 1; printed = []; world = w' }
  | returned w' ↦ measure (measured p s) w'
]
