-- ===== src/Copy/Async.antt =====
-- `async_io` of hw3: a file copied through a ring with `ENTRY` buffers. Each buffer has at most one request in the
-- ring. At most `ENTRY` requests are made between two calls of `io_uring_submit`, so that `io_uring_get_sqe` always
-- finds an entry. A negative `cqe->res` is `none`.
mod Slots
pub mod Writes
mod Invariant
pub mod Rounds
pub mod Copies
pub mod InOrder
mod Tests
use file_system_homework.Base.{
  ℕ, zero, suc, ◌+◌, ◌-◌, Bool, true, false, not, ◌&&◌, ◌||◌, List, [], ◌∷◌, ◌++◌, Option, some,
  none, length, get_elem?, set, take, drop, replicate, slice, ltb, if◌then◌else◌,
}

abbrev pub buffer_size : ℕ
buffer_size = 65536

-- `buffer_in_use`, `info` and `buffers` at one index: free, or with a request to read or to write.
pub data Slot : Type 0 where
  idle : Slot
  reading : (offset len : ℕ) → Slot
  writing : (offset : ℕ) (bytes : List ℕ) → Slot

pub record State : Type 0 where
  pub slots : List Slot
  pub read_offset : ℕ
  pub bytes_written : ℕ
  pub active_reqs : ℕ
  pub dest : List ℕ

-- Before the loop: the file at `dest` is truncated.
pub start : ℕ → State
start entry = record {
  slots = replicate entry idle;
  read_offset = 0;
  bytes_written = 0;
  active_reqs = 0;
  dest = [];
}

-- `bytes_to_read`
abbrev pub bytes_to_read : ℕ → ℕ → ℕ
bytes_to_read file_size offset =
    if ltb file_size (offset + buffer_size) then file_size - offset else buffer_size

-- The slots, the offset to read from next, and how many requests were made.
pub record Filled : Type 0 where
  pub slots : List Slot
  pub offset : ℕ
  pub made : ℕ

abbrev pub behind : Slot → ℕ → Filled → Filled
behind s n f = record { slots = s ∷ f.slots; offset = f.offset; made = n + f.made }

-- The `for` loop over the buffers.
pub fill_slots : ℕ → List Slot → ℕ → Filled
fill_slots file_size [] offset = record { slots = []; offset = offset; made = 0 }
fill_slots file_size (idle ∷ ss) offset =
    let len = bytes_to_read file_size offset in
    let more = fill_slots file_size ss (offset + len) in
    if ltb offset file_size
    then behind (reading offset len) 1 more
    else record { slots = idle ∷ ss; offset = offset; made = 0 }
fill_slots file_size (reading o n ∷ ss) offset =
    behind (reading o n) 0 (fill_slots file_size ss offset)
fill_slots file_size (writing o b ∷ ss) offset =
    behind (writing o b) 0 (fill_slots file_size ss offset)

pub refill : ℕ → State → State
refill file_size s =
    let f = fill_slots file_size s.slots s.read_offset in
    record s { slots = f.slots; read_offset = f.offset; active_reqs = s.active_reqs + f.made }

-- `pwrite`: a gap behind the end of the file reads as zeros.
pub write_at : ℕ → List ℕ → List ℕ → List ℕ
write_at offset bytes file =
    take offset (file ++ replicate (offset - length file) 0)
    ++ (bytes ++ drop (offset + length bytes) file)

-- The buffer is free again.
abbrev pub release : ℕ → State → State
release i s = record s { slots = set s.slots i idle; active_reqs = s.active_reqs - 1 }

-- A completed read of the file `src`. `res > 0` goes on to write what was read.
abbrev pub read_done : List ℕ → (i offset len : ℕ) → Option ℕ → State → State
read_done src i offset len none s = release i s
read_done src i offset len (some zero) s = release i s
read_done src i offset len (some (suc res)) s = record s {
  slots = set s.slots i (writing offset (take (suc res) (slice offset len src)));
}

abbrev pub write_done : (i offset : ℕ) → List ℕ → Option ℕ → State → State
write_done i offset bytes none s = release i s
write_done i offset bytes (some zero) s = release i s
write_done i offset bytes (some (suc res)) s = release i (record s {
  bytes_written = s.bytes_written + suc res;
  dest = write_at offset (take (suc res) bytes) s.dest;
})

-- By `op_type`.
abbrev pub complete_slot : List ℕ → ℕ → (Slot → Option ℕ) → Option Slot → State → State
complete_slot src i res none s = s
complete_slot src i res (some idle) s = s
complete_slot src i res (some (reading offset len)) s =
    read_done src i offset len (res (reading offset len)) s
complete_slot src i res (some (writing offset bytes)) s =
    write_done i offset bytes (res (writing offset bytes)) s

-- A completion of the request of buffer `i`, with the `res` that the kernel gives for it.
pub complete : List ℕ → ℕ → (Slot → Option ℕ) → State → State
complete src i res s = complete_slot src i res (get_elem? s.slots i) s

-- `bytes_written < file_size || active_reqs > 0`
pub is_running : List ℕ → State → Bool
is_running src s = ltb s.bytes_written (length src) || ltb 0 s.active_reqs

-- One round of the `while` loop. `choose` says which request completes.
pub round : List ℕ → (List Slot → ℕ) → (Slot → Option ℕ) → State → State
round src choose res s =
    let s' = refill (length src) s in
    if ltb 0 s'.active_reqs then complete src (choose s'.slots) res s' else s'

-- `if(ret < 0) break;`, behind `io_uring_submit`: `waits` says whether `io_uring_wait_cqe` succeeds.
abbrev pub breaks : List ℕ → Bool → State → Bool
breaks src waits s = ltb 0 (refill (length src) s).active_reqs && not waits

-- The loop, up to `fuel` rounds; `none` if it still runs then. Whether `io_uring_wait_cqe` succeeds, what completes, and with
-- which `res`, may be different in each round.
pub run :
    ℕ → List ℕ → (ℕ → Bool) → (ℕ → List Slot → ℕ) → (ℕ → Slot → Option ℕ) → State → Option State
run zero src waits choose res s = none
run (suc fuel) src waits choose res s = elim (is_running src s) [
  | true ↦ elim (breaks src (waits fuel) s) [
    | true ↦ some (refill (length src) s)
    | false ↦ run fuel src waits choose res (round src (choose fuel) (res fuel) s)
  ]
  | false ↦ some s
]
