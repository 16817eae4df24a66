-- ===== src/Copy/Async/Invariant.antt =====
-- `async_io` of hw3: the invariant of the loop, and the loop over the buffers under it.
use file_system_homework.Base.{
  ℕ, suc, ◌+◌, ◌-◌, ◌*◌, ◌≡◌, ◌≤◌, ◌<◌, ◌⊎◌, inl, inr, refl, ap, arith, true, List, [], ◌∷◌, length,
  get_or, ltb, Bool-cases, ltb→lt, ltb-false→le, dec_lt,
}
use file_system_homework.Copy.Async.{
  Slot, idle, reading, writing, State, Filled, fill_slots, refill, bytes_to_read,
}
use file_system_homework.Copy.Async.Slots.{
  weight, steps_left, busy, total, covers, AreRequests, total-weight-busy,
}

-- The requests are those of the file up to `read_offset`, the bytes written and under way are those before it, and each of these is
-- in place in the copy or under way.
abbrev pub IsCopying : List ℕ → State → Type 0
IsCopying src s =
    AreRequests src s.read_offset s.slots
    × (s.read_offset ≤ length src)
    × (s.bytes_written + total weight s.slots ≡ s.read_offset)
    × (s.active_reqs ≡ total busy s.slots)
    × (length s.dest ≤ length src)
    × ((j : ℕ)
        → j < s.read_offset
        → ((j < length s.dest) × (get_or s.dest j 0 ≡ get_or src j 0)) ⊎ (covers j s.slots ≡ true))

later-AreRequests :
    (src : List ℕ) (m n : ℕ) (ss : List Slot) → m ≤ n → AreRequests src m ss → AreRequests src n ss
later-AreRequests src m n [] h r = tt
later-AreRequests src m n (idle ∷ ss) h (r, rs) = (tt, later-AreRequests src m n ss h rs)
later-AreRequests src m n (reading o k ∷ ss) h ((a, b), rs) =
    ((a, omega (arith, b, h)), later-AreRequests src m n ss h rs)
later-AreRequests src m n (writing o x ∷ ss) h ((a, b, c), rs) =
    ((a, omega (arith, b, h), c), later-AreRequests src m n ss h rs)

-- The numbers that one pass over the buffers keeps.
abbrev pub Balance : ℕ → List Slot → ℕ → Filled → Type 0
Balance size ss offset f =
    (offset ≤ f.offset)
    × (f.offset ≤ size)
    × (total weight f.slots + offset ≡ total weight ss + f.offset)
    × (total busy f.slots ≡ total busy ss + f.made)
    × (total steps_left f.slots + 2 * offset ≡ total steps_left ss + 2 * f.offset)
    × (offset < size → 0 < length ss → 0 < total busy f.slots)
    × (length f.slots ≡ length ss)

bytes_to_read_lem :
    (size offset : ℕ)
    → offset < size
    → (0 < bytes_to_read size offset) × (offset + bytes_to_read size offset ≤ size)
bytes_to_read_lem size offset h = ground (arith, h)

fill_slots-Balance :
    (size : ℕ) (ss : List Slot) (offset : ℕ)
    → offset ≤ size
    → Balance size ss offset (fill_slots size ss offset)
unfolding fill_slots total
fill_slots-Balance size [] offset h =
    (omega arith, h, refl, omega arith, refl, (λ a b. absurd (omega (arith, b))), refl)
fill_slots-Balance size (idle ∷ ss) offset h = elim (Bool-cases (ltb offset size)) [
  | inl e ↦
      let n : ℕ = bytes_to_read size offset in
      let c : (0 < n) × (offset + n ≤ size) =
        bytes_to_read_lem size offset (ltb→lt offset size e) in
      let r : Balance size ss (offset + n) (fill_slots size ss (offset + n)) =
        fill_slots-Balance size ss (offset + n) (c.1) in
      rw e (
        omega (arith, r.0),
        r.1,
        omega (arith, r.2),
        omega (arith, r.3),
        omega (arith, r.4),
        (λ a b. omega arith),
        ap suc r.6,
      )
  | inr e ↦ rw e (
    omega arith,
    h,
    refl,
    omega arith,
    refl,
    (λ a b. absurd (omega (arith, a, ltb-false→le offset size e))),
    refl,
  )
]
fill_slots-Balance size (reading o n ∷ ss) offset h =
    let r : Balance size ss offset (fill_slots size ss offset) =
      fill_slots-Balance size ss offset h in
    (
      r.0,
      r.1,
      omega (arith, r.2),
      omega (arith, r.3),
      omega (arith, r.4),
      (λ a b. omega (arith, r.3)),
      ap suc r.6,
    )
fill_slots-Balance size (writing o x ∷ ss) offset h =
    let r : Balance size ss offset (fill_slots size ss offset) =
      fill_slots-Balance size ss offset h in
    (
      r.0,
      r.1,
      omega (arith, r.2),
      omega (arith, r.3),
      omega (arith, r.4),
      (λ a b. omega (arith, r.3)),
      ap suc r.6,
    )

fill_slots-covers :
    (size : ℕ) (ss : List Slot) (offset j : ℕ)
    → covers j ss ≡ true
    → covers j (fill_slots size ss offset).slots ≡ true
unfolding fill_slots covers
fill_slots-covers size [] offset j h = h
fill_slots-covers size (idle ∷ ss) offset j h =
    ground (arith, h, fill_slots-covers size ss (offset + bytes_to_read size offset) j)
fill_slots-covers size (reading o n ∷ ss) offset j h =
    ground (arith, h, fill_slots-covers size ss offset j)
fill_slots-covers size (writing o x ∷ ss) offset j h =
    ground (arith, h, fill_slots-covers size ss offset j)

-- All that is newly taken off the file is under way.
fill_slots-covers_new :
    (size : ℕ) (ss : List Slot) (offset j : ℕ)
    → offset ≤ j
    → j < (fill_slots size ss offset).offset
    → covers j (fill_slots size ss offset).slots ≡ true
unfolding fill_slots covers
fill_slots-covers_new size [] offset j h k = absurd (omega (arith, h, k))
fill_slots-covers_new size (idle ∷ ss) offset j h k =
    ground (arith, h, k, fill_slots-covers_new size ss (offset + bytes_to_read size offset) j)
fill_slots-covers_new size (reading o n ∷ ss) offset j h k =
    ground (arith, h, k, fill_slots-covers_new size ss offset j)
fill_slots-covers_new size (writing o x ∷ ss) offset j h k =
    ground (arith, h, k, fill_slots-covers_new size ss offset j)

fill_slots-AreRequests :
    (src : List ℕ) (ss : List Slot) (offset : ℕ)
    → offset ≤ length src
    → AreRequests src offset ss
    → let f = fill_slots (length src) ss offset in AreRequests src f.offset f.slots
unfolding fill_slots
fill_slots-AreRequests src [] offset h r = tt
fill_slots-AreRequests src (idle ∷ ss) offset h (r, rs) =
    elim (Bool-cases (ltb offset (length src))) [
      | inl e ↦
          let n : ℕ = bytes_to_read (length src) offset in
          let c : (0 < n) × (offset + n ≤ length src) =
            bytes_to_read_lem (length src) offset (ltb→lt offset (length src) e) in
          rw e (
            (c.0, (fill_slots-Balance (length src) ss (offset + n) (c.1)).0),
            fill_slots-AreRequests src ss (offset + n) (c.1)
                (later-AreRequests src offset (offset + n) ss (omega arith) rs),
          )
      | inr e ↦ rw e (r, rs)
    ]
fill_slots-AreRequests src (reading o n ∷ ss) offset h ((a, b), rs) = (
  (a, omega (arith, b, (fill_slots-Balance (length src) ss offset h).0)),
  fill_slots-AreRequests src ss offset h rs,
)
fill_slots-AreRequests src (writing o x ∷ ss) offset h ((a, b, c), rs) = (
  (a, omega (arith, b, (fill_slots-Balance (length src) ss offset h).0), c),
  fill_slots-AreRequests src ss offset h rs,
)

-- The `for` loop keeps the copy going.
pub refill-IsCopying :
    (src : List ℕ) (s : State) → IsCopying src s → IsCopying src (refill (length src) s)
unfolding refill
refill-IsCopying src s (requests, le, bytes, active, short, placed) = (
  fill_slots-AreRequests src s.slots s.read_offset le requests,
  b.1,
  omega (arith, b.2, bytes),
  omega (arith, b.3, active),
  short,
  λ j h. place j h (dec_lt j s.read_offset),
)
  where
    f : Filled
    f = fill_slots (length src) s.slots s.read_offset

    b : Balance (length src) s.slots s.read_offset f
    b = fill_slots-Balance (length src) s.slots s.read_offset le

    place :
        (j : ℕ)
        → j < f.offset
        → Dec (j < s.read_offset)
        → ((j < length s.dest) × (get_or s.dest j 0 ≡ get_or src j 0)) ⊎ (covers j f.slots ≡ true)
    place j h (yes p) = elim (placed j p) [
      | inl good ↦ inl good
      | inr c ↦ inr (fill_slots-covers (length src) s.slots s.read_offset j c)
    ]
    place j h (no p) =
        inr (fill_slots-covers_new (length src) s.slots s.read_offset j (omega (arith, p)) h)

-- Rounds that are left at most.
abbrev pub rounds_left : List ℕ → State → ℕ
rounds_left src s = 3 * (length src - s.read_offset) + total steps_left s.slots

pub refill-rounds_left :
    (src : List ℕ) (s : State)
    → IsCopying src s
    → rounds_left src (refill (length src) s) ≤ rounds_left src s
unfolding refill
refill-rounds_left src s copying =
    let b : Balance (length src) s.slots s.read_offset
        (fill_slots (length src) s.slots s.read_offset) =
      fill_slots-Balance (length src) s.slots s.read_offset copying.1 in
    omega (arith, b.0, b.1, b.4, copying.1)

-- While there is something to read and a buffer at all, a request is under way.
pub refill-busy :
    (src : List ℕ) (s : State)
    → IsCopying src s
    → 0 < length s.slots
    → s.bytes_written < length src
    → 0 < (refill (length src) s).active_reqs
unfolding refill
refill-busy src s copying entry more = elim (dec_lt s.read_offset (length src)) [
  | yes p ↦ omega (arith, b.3, b.5 p entry, copying.3)
  | no p ↦ elim (dec_lt 0 (total busy s.slots)) [
    | yes q ↦ omega (arith, q, copying.3)
    | no q ↦
        absurd (omega (arith, total-weight-busy s.slots (omega (arith, q)), copying.2, more, p))
  ]
]
  where
    b : Balance (length src) s.slots s.read_offset (fill_slots (length src) s.slots s.read_offset)
    b = fill_slots-Balance (length src) s.slots s.read_offset copying.1

pub refill-active : (n : ℕ) (s : State) → s.active_reqs ≤ (refill n s).active_reqs
unfolding refill
refill-active n s = omega arith

pub length-refill :
    (src : List ℕ) (s : State)
    → IsCopying src s
    → length (refill (length src) s).slots ≡ length s.slots
unfolding refill
length-refill src s copying = (fill_slots-Balance (length src) s.slots s.read_offset copying.1).6
