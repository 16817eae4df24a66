-- ===== src/Copy/Program.antt =====
-- hw3: `main`, which copies `argv[1]` to output.txt twice, and what `async_io` sets up and cleans up. The input is another
-- file than the output, `malloc` gives memory, and `io_uring_queue_init` makes a ring: the code looks at neither. `ENTRY` is
-- an argument.
mod Laws
mod Tests
use file_system_homework.Base.{
  ℕ, zero, suc, ◌+◌, ◌-◌, Bool, true, false, not, List, [], Option, some, none, if◌then◌else◌,
}
use file_system_homework.Copy.Blocking.{Round, Copied, Outcome, blocking_io}
use file_system_homework.Copy.Async.{Slot, State, start, run}

-- The two files, the descriptors and rings that are open, and the blocks of memory that are allocated.
pub record World : Type 0 where
  pub input : List ℕ
  pub output : Option (List ℕ)
  pub open_fds : ℕ
  pub rings : ℕ
  pub blocks : ℕ

-- Whether each `open` and `fstat` succeeds.
pub record Calls : Type 0 where
  pub src_opens : Bool
  pub dest_opens : Bool
  pub stats : Bool

abbrev pub open_fd : World → World
open_fd w = record w { open_fds = suc w.open_fds }

abbrev pub close_fd : World → World
close_fd w = record w { open_fds = w.open_fds - 1 }

abbrev pub put : List ℕ → World → World
put bytes w = record w { output = some bytes }

-- `buffers`, its `ENTRY` elements, `info` and `buffer_in_use`, and the ring.
pub set_up : ℕ → World → World
set_up entry w = record w { blocks = w.blocks + entry + 3; rings = suc w.rings }

pub queue_exit : World → World
queue_exit w = record w { rings = w.rings - 1 }

pub cleanup_mem : ℕ → World → World
cleanup_mem entry w = record w { blocks = w.blocks - entry - 3 }

-- `async_io`; `none` if the loop still runs when `fuel` is used up. The second `open` truncates the output.
pub async_io :
    Calls
    → (fuel entry : ℕ) → (ℕ → Bool)
    → (ℕ → List Slot → ℕ)
    → (ℕ → Slot → Option ℕ)
    → World
    → Option World
async_io c fuel entry waits choose res w =
    let ready = set_up entry w in
    if not c.src_opens
    then some (cleanup_mem entry ready)
    else if not c.dest_opens
    then some (cleanup_mem entry (close_fd (open_fd ready)))
    else if not c.stats
    then some (cleanup_mem entry (close_fd (close_fd (put [] (open_fd (open_fd ready))))))
    else (elim (run fuel ready.input waits choose res (start entry)) [
      | none ↦ none
      | some s ↦ some (
          cleanup_mem entry
            (queue_exit (close_fd (close_fd (put s.dest (open_fd (open_fd ready)))))))
    ])

-- What `blocking_io` leaves.
abbrev pub left_by : Outcome → World → Option World
left_by o w =
    let w' = record w { open_fds = w.open_fds + o.open_fds } in
    elim o.copied [ none ↦ some w' | some c ↦ if c.ended then some (put c.dest w') else none ]

pub copy_blocking : Calls → List Round → World → Option World
copy_blocking c rs w = left_by (blocking_io c.src_opens c.dest_opens rs w.input) w

-- `blocking` and `async` are the calls of the two copies.
pub main :
    (blocking async : Calls)
    → List Round
    → (fuel entry : ℕ) → (ℕ → Bool)
    → (ℕ → List Slot → ℕ)
    → (ℕ → Slot → Option ℕ)
    → World
    → Option World
main blocking async rs fuel entry waits choose res w = elim (copy_blocking blocking rs w) [
  | none ↦ none
  | some w' ↦ async_io async fuel entry waits choose res w'
]
