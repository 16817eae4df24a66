-- ===== src/Copy/Async/Copies.antt =====
-- `async_io` of hw3: the copy and the file, at the end of the loop.
use file_system_homework.Base.{
  ℕ, zero, suc, ◌-◌, ◌*◌, ◌≡◌, ◌≤◌, ◌<◌, inl, inr, refl, arith, Bool, true, false, List, [], ◌∷◌,
  Option, some, none, length, length-replicate, get_or, get_or_ext, replicate, Bool-cases, dec_lt,
}
use file_system_homework.Copy.Async.{
  Slot, idle, reading, writing, State, start, is_running, round, run, breaks, refill, fill_slots,
}
use file_system_homework.Copy.Async.Slots.{
  weight, steps_left, busy, total, covers-busy, AreRequests,
}
use file_system_homework.Copy.Async.Invariant.{IsCopying, rounds_left}
use file_system_homework.Copy.Async.Rounds.{Advances, IsFair, round-Advances}

total-start : (f : Slot → ℕ) → f idle ≡ 0 → (n : ℕ) → total f (replicate n idle) ≡ 0
unfolding total
total-start f z zero = refl
total-start f z (suc n) = omega (arith, z, total-start f z n)

AreRequests-start : (src : List ℕ) (n : ℕ) → AreRequests src 0 (replicate n idle)
AreRequests-start src zero = tt
AreRequests-start src (suc n) = (tt, AreRequests-start src n)

pub start-IsCopying : (src : List ℕ) (entry : ℕ) → IsCopying src (start entry)
unfolding start
start-IsCopying src entry = (
  AreRequests-start src entry,
  omega arith,
  omega (arith, total-start weight refl entry),
  omega (arith, total-start busy refl entry),
  omega arith,
  λ j h. absurd (omega (arith, h)),
)

pub start-rounds_left : (src : List ℕ) (entry : ℕ) → rounds_left src (start entry) ≡ 3 * length src
unfolding start
start-rounds_left src entry = omega (arith, total-start steps_left refl entry)

length-start : (entry : ℕ) → length (start entry).slots ≡ entry
unfolding start
length-start entry = length-replicate {A = Slot} entry idle

-- When the loop ends all bytes are in place.
stopped-dest :
    (src : List ℕ) (s : State) → IsCopying src s → is_running src s ≡ false → s.dest ≡ src
unfolding is_running
stopped-dest src s (requests, le, bytes, active, short, placed) stopped =
    get_or_ext 0 s.dest src (omega (arith, short, long (dec_lt 0 (length src))))
      (λ j h. (right j (omega (arith, h, short))).1)
  where
    no_active : s.active_reqs ≡ 0
    no_active = ground (arith, stopped)

    all_read : s.read_offset ≡ length src
    all_read = ground (arith, stopped, bytes, le)

    right : (j : ℕ) → j < length src → (j < length s.dest) × (get_or s.dest j 0 ≡ get_or src j 0)
    right j h = elim (placed j (omega (arith, h, all_read))) [
      | inl good ↦ good
      | inr c ↦ absurd (omega (arith, covers-busy j s.slots c, active, no_active))
    ]

    long : Dec (0 < length src) → length src ≤ length s.dest
    long (yes p) = omega (arith, (right (length src - 1) (omega (arith, p))).0)
    long (no p) = omega (arith, p)

no_break : (src : List ℕ) (waits : Bool) (s : State) → waits ≡ true → breaks src waits s ≡ false
no_break src waits s e = ground (arith, e)

run-copies :
    (fuel : ℕ) (src : List ℕ) (waits : ℕ → Bool) (choose : ℕ → List Slot → ℕ)
    (res : ℕ → Slot → Option ℕ) (s : State)
    → ((k : ℕ) → waits k ≡ true)
    → ((k : ℕ) → IsFair (choose k) (res k))
    → IsCopying src s
    → 0 < length s.slots
    → rounds_left src s < fuel
    → (s' : State) × (run fuel src waits choose res s ≡ some s') × (s'.dest ≡ src)
unfolding run
run-copies zero src waits choose res s good fair copying entry h = absurd (omega (arith, h))
run-copies (suc fuel) src waits choose res s good fair copying entry h =
    elim (Bool-cases (is_running src s)) [
      | inl e ↦
          let a : Advances src s (round src (choose fuel) (res fuel) s) =
            round-Advances src (choose fuel) (res fuel) s (fair fuel) copying entry e in
          rw (run, e, no_break src (waits fuel) s (good fuel))
            (run-copies fuel src waits choose res (round src (choose fuel) (res fuel) s) good fair
              a.0 (omega (arith, a.2, entry)) (omega (arith, a.1, h)))
      | inr e ↦ (s, rw (run, e) refl, stopped-dest src s copying e)
    ]

-- The copy through the ring ends, after at most three rounds for each byte, and the copy is the file. This holds for any
-- positive number of buffers and whichever request completes in each round, if each request reads or writes all that it was made
-- for and no wait for a completion fails.
pub run-dest :
    (entry : ℕ) (src : List ℕ) (waits : ℕ → Bool) (choose : ℕ → List Slot → ℕ)
    (res : ℕ → Slot → Option ℕ)
    → 0 < entry
    → ((k : ℕ) → waits k ≡ true)
    → ((k : ℕ) → IsFair (choose k) (res k))
    → (s' : State) × (run (suc (3 * length src)) src waits choose res (start entry) ≡ some s')
      × (s'.dest ≡ src)
run-dest entry src waits choose res h good fair =
    run-copies (suc (3 * length src)) src waits choose res (start entry) good fair
      (start-IsCopying src entry) (omega (arith, h, length-start entry))
      (omega (arith, start-rounds_left src entry))

fill_slots_none :
    (size : ℕ) (ss : List Slot) (offset : ℕ)
    → size ≤ offset
    → fill_slots size ss offset ≡ record { slots = ss; offset = offset; made = 0 }
unfolding fill_slots
fill_slots_none size [] offset h = refl
fill_slots_none size (idle ∷ ss) offset h = ground (arith, h)
fill_slots_none size (reading o n ∷ ss) offset h = rw (fill_slots_none size ss offset h) refl
fill_slots_none size (writing o b ∷ ss) offset h = rw (fill_slots_none size ss offset h) refl

running_stuck : (src : List ℕ) (s : State) → s.bytes_written < length src → is_running src s ≡ true
unfolding is_running
running_stuck src s h = ground (arith, h)

round_stuck :
    (src : List ℕ) (choose : List Slot → ℕ) (res : Slot → Option ℕ) (s : State)
    → s.active_reqs ≡ 0
    → length src ≤ s.read_offset
    → round src choose res s ≡ s
unfolding round refill
round_stuck src choose res s idle_ring all_read =
    rw (fill_slots_none (length src) s.slots s.read_offset all_read, idle_ring) refl

no_break_stuck :
    (src : List ℕ) (waits : Bool) (s : State)
    → s.active_reqs ≡ 0
    → length src ≤ s.read_offset
    → breaks src waits s ≡ false
unfolding refill
no_break_stuck src waits s idle_ring all_read =
    rw (fill_slots_none (length src) s.slots s.read_offset all_read, idle_ring) refl

-- Once all of the file was asked for, nothing is under way and bytes are missing, because a read or a write failed or
-- was short, the loop never ends, whatever the kernel does.
pub run_stuck :
    (fuel : ℕ) (src : List ℕ) (waits : ℕ → Bool) (choose : ℕ → List Slot → ℕ)
    (res : ℕ → Slot → Option ℕ) (s : State)
    → s.active_reqs ≡ 0
    → length src ≤ s.read_offset
    → s.bytes_written < length src
    → run fuel src waits choose res s ≡ none
unfolding run
run_stuck zero src waits choose res s a b c = refl
run_stuck (suc fuel) src waits choose res s a b c =
    rw
      (
        run,
        running_stuck src s c,
        no_break_stuck src (waits fuel) s a b,
        round_stuck src (choose fuel) (res fuel) s a b,
      )
      (run_stuck fuel src waits choose res s a b c)
