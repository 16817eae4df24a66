-- ===== src/Copy/Async/Rounds.antt =====
-- `async_io` of hw3: completions and rounds of the loop under the invariant.
use file_system_homework.Base.{
  ℕ, zero, suc, ◌+◌, ◌-◌, ◌≡◌, ◌≤◌, ◌<◌, ◌⊎◌, ◌∙◌, inl, inr, refl, sym, ap, subst, arith, true,
  ◌&&◌, List, [], ◌∷◌, Option, some, length, length-set, get_elem?, get_or, set, take, slice, ltb,
  leb, if◌then◌else◌, ltb→lt, lt→ltb, leb→le, &&-true, dec_lt, take_all, length-slice, get_or-slice,
}
use file_system_homework.Copy.Async.{
  Slot, idle, reading, writing, State, complete, complete_slot, is_running, read_done, write_done,
  write_at, refill, round,
}
use file_system_homework.Copy.Async.Slots.{
  weight, steps_left, busy, total, covers, IsRequest, total-set, covers-set, covers-set_new,
  AreRequests-get, AreRequests-set,
}
use file_system_homework.Copy.Async.Writes.{
  length-write_at, get_or-write_at_front, get_or-write_at_in, get_or-write_at_back,
}
use file_system_homework.Copy.Async.Invariant.{
  IsCopying, rounds_left, refill-IsCopying, refill-rounds_left, refill-busy, refill-active,
  length-refill,
}

-- What a step to `s'` keeps.
abbrev pub Advances : List ℕ → State → State → Type 0
Advances src s s' =
    IsCopying src s' × (rounds_left src s' < rounds_left src s) × (length s'.slots ≡ length s.slots)

module _ (src : List ℕ) (s : State) (copying : IsCopying src s) (i : ℕ) where
  read_done-Advances :
      (offset n : ℕ)
      → get_elem? s.slots i ≡ some (reading offset n)
      → Advances src s (read_done src i offset n (some n) s)
  read_done-Advances offset zero e = absurd (
      omega (arith, (AreRequests-get src s.read_offset s.slots i (reading offset 0) e copying.0).0))
  read_done-Advances offset (suc n) e = (
    (
      AreRequests-set src s.read_offset s.slots i new copying.0 (
        omega (arith, len),
        omega (arith, len, old.1),
        whole ∙ ap (λ k. slice offset k src) (sym len),
      ),
      copying.1,
      omega (arith, total-set weight s.slots i (reading offset (suc n)) new e, len, copying.2),
      omega (arith, total-set busy s.slots i (reading offset (suc n)) new e, copying.3),
      copying.4,
      λ j h. moved j (copying.5 j h),
    ),
    omega (arith, total-set steps_left s.slots i (reading offset (suc n)) new e, len),
    length-set s.slots i new,
  )
    where
      bytes : List ℕ
      bytes = take (suc n) (slice offset (suc n) src)

      new : Slot
      new = writing offset bytes

      old : IsRequest src s.read_offset (reading offset (suc n))
      old = AreRequests-get src s.read_offset s.slots i (reading offset (suc n)) e copying.0

      whole : bytes ≡ slice offset (suc n) src
      whole =
          take_all (suc n) (slice offset (suc n) src)
            (omega (arith, length-slice offset (suc n) src (omega (arith, old.1, copying.1))))

      len : length bytes ≡ suc n
      len = ap length whole ∙ length-slice offset (suc n) src (omega (arith, old.1, copying.1))

      moved :
          (j : ℕ)
          → ((j < length s.dest) × (get_or s.dest j 0 ≡ get_or src j 0)) ⊎ (covers j s.slots ≡ true)
          → ((j < length s.dest) × (get_or s.dest j 0 ≡ get_or src j 0))
            ⊎ (covers j (set s.slots i new) ≡ true)
      moved j (inl h) = inl h
      moved j (inr c) = elim (covers-set j s.slots i (reading offset (suc n)) new e c) [
        | inl h ↦ inr (
            covers-set_new j s.slots i (reading offset (suc n)) new e
              (ap (λ k. leb offset j && ltb j (offset + k)) len ∙ h))
        | inr h ↦ inr h
      ]

  abbrev written : ℕ → List ℕ → State
  written offset bytes = record {
    slots = set s.slots i idle;
    read_offset = s.read_offset;
    bytes_written = s.bytes_written + length bytes;
    active_reqs = s.active_reqs - 1;
    dest = write_at offset bytes s.dest;
  }

  write_done_lem :
      (offset : ℕ) (bytes : List ℕ)
      → 0 < length bytes
      → write_done i offset bytes (some (length bytes)) s ≡ written offset bytes
  write_done_lem offset [] h = absurd (omega (arith, h))
  write_done_lem offset (x ∷ bytes) h = rw (take_all (length bytes) bytes (omega arith)) refl

  written-Advances :
      (offset : ℕ) (bytes : List ℕ)
      → get_elem? s.slots i ≡ some (writing offset bytes)
      → Advances src s (written offset bytes)
  written-Advances offset bytes e = (
    (
      AreRequests-set src s.read_offset s.slots i idle copying.0 tt,
      copying.1,
      omega (arith, total-set weight s.slots i (writing offset bytes) idle e, copying.2),
      omega (arith, total-set busy s.slots i (writing offset bytes) idle e, copying.3),
      (length-write_at offset bytes s.dest).2 (length src) copying.4
          (omega (arith, old.1, copying.1)),
      λ j h. placed j (copying.5 j h),
    ),
    omega (arith, total-set steps_left s.slots i (writing offset bytes) idle e, old.0),
    length-set s.slots i idle,
  )
    where
      old : IsRequest src s.read_offset (writing offset bytes)
      old = AreRequests-get src s.read_offset s.slots i (writing offset bytes) e copying.0

      in_range :
          (j : ℕ)
          → offset ≤ j
          → j < offset + length bytes
          → (j < length (write_at offset bytes s.dest))
            × (get_or (write_at offset bytes s.dest) j 0 ≡ get_or src j 0)
      in_range j h k =
          let back : offset + (j - offset) ≡ j = omega (arith, h) in
          (
            omega (arith, (length-write_at offset bytes s.dest).1, k),
            subst (λ n. get_or (write_at offset bytes s.dest) n 0 ≡ get_or src n 0) back
                (get_or-write_at_in offset bytes s.dest (j - offset) (omega (arith, h, k))
                  ∙ ap (λ b. get_or b (j - offset) 0) old.2
                  ∙ get_or-slice offset (length bytes) src (j - offset) 0 (omega (arith, h, k))),
          )

      kept :
          (j : ℕ)
          → j < length s.dest
          → get_or s.dest j 0 ≡ get_or src j 0
          → Dec (j < offset)
          → Dec (j < offset + length bytes)
          → (j < length (write_at offset bytes s.dest))
            × (get_or (write_at offset bytes s.dest) j 0 ≡ get_or src j 0)
      kept j h k (yes p) q = (
        omega (arith, (length-write_at offset bytes s.dest).0, h),
        get_or-write_at_front offset bytes s.dest j p h ∙ k,
      )
      kept j h k (no p) (yes q) = in_range j (omega (arith, p)) q
      kept j h k (no p) (no q) =
          let m : ℕ = j - (offset + length bytes) in
          let back : offset + (length bytes + m) ≡ j = omega (arith, q) in
          let same : offset + length bytes + m ≡ j = omega (arith, q) in
          (
            omega (arith, (length-write_at offset bytes s.dest).0, h),
            subst (λ n. get_or (write_at offset bytes s.dest) n 0 ≡ get_or src j 0) back
                (get_or-write_at_back offset bytes s.dest m
                  ∙ subst (λ n. get_or s.dest n 0 ≡ get_or src j 0) (sym same) k),
          )

      placed :
          (j : ℕ)
          → ((j < length s.dest) × (get_or s.dest j 0 ≡ get_or src j 0)) ⊎ (covers j s.slots ≡ true)
          → ((j < length (write_at offset bytes s.dest))
              × (get_or (write_at offset bytes s.dest) j 0 ≡ get_or src j 0))
            ⊎ (covers j (set s.slots i idle) ≡ true)
      placed j (inl (h, k)) = inl (kept j h k (dec_lt j offset) (dec_lt j (offset + length bytes)))
      placed j (inr c) = elim (covers-set j s.slots i (writing offset bytes) idle e c) [
        | inl h ↦ inl (
            in_range j
              (leb→le offset j (&&-true (leb offset j) (ltb j (offset + length bytes)) h).0)
              (ltb→lt j (offset + length bytes)
                (&&-true (leb offset j) (ltb j (offset + length bytes)) h).1))
        | inr h ↦ inr h
      ]

  write_done-Advances :
      (offset : ℕ) (bytes : List ℕ)
      → get_elem? s.slots i ≡ some (writing offset bytes)
      → Advances src s (write_done i offset bytes (some (length bytes)) s)
  write_done-Advances offset bytes e =
      subst (Advances src s)
        (sym (
          write_done_lem offset bytes
            (AreRequests-get src s.read_offset s.slots i (writing offset bytes) e copying.0).0))
        (written-Advances offset bytes e)

  complete-Advances :
      (x : Slot) (res : Slot → Option ℕ)
      → get_elem? s.slots i ≡ some x
      → 0 < busy x
      → ((y : Slot) → res y ≡ some (weight y))
      → Advances src s (complete src i res s)
  unfolding complete
  complete-Advances x res e b whole =
      subst (λ o. Advances src s (complete_slot src i res o s)) (sym e) (at_slot x e b)
    where
      at_slot :
          (x : Slot)
          → get_elem? s.slots i ≡ some x
          → 0 < busy x
          → Advances src s (complete_slot src i res (some x) s)
      at_slot idle e b = absurd (omega (arith, b))
      at_slot (reading offset n) e b =
          subst (λ r. Advances src s (read_done src i offset n r s))
            (sym (whole (reading offset n))) (read_done-Advances offset n e)
      at_slot (writing offset bytes) e b =
          subst (λ r. Advances src s (write_done i offset bytes r s))
            (sym (whole (writing offset bytes))) (write_done-Advances offset bytes e)

-- What is known of the kernel: a request that completes is one that the ring holds, and it reads or writes all that it
-- was made for.
abbrev pub IsFair : (List Slot → ℕ) → (Slot → Option ℕ) → Type 0
IsFair choose res =
    ((ss : List Slot)
      → 0 < total busy ss
      → (x : Slot) × (get_elem? ss (choose ss) ≡ some x) × (0 < busy x))
    × ((x : Slot) → res x ≡ some (weight x))

running-busy :
    (src : List ℕ) (s : State)
    → IsCopying src s
    → 0 < length s.slots
    → is_running src s ≡ true
    → 0 < (refill (length src) s).active_reqs
unfolding is_running
running-busy src s copying entry running = elim (dec_lt s.bytes_written (length src)) [
  | yes p ↦ refill-busy src s copying entry p
  | no p ↦
      let on : 0 < s.active_reqs = ground (arith, p, running) in
      omega (arith, on, refill-active (length src) s)
]

-- A round of the loop.
pub round-Advances :
    (src : List ℕ) (choose : List Slot → ℕ) (res : Slot → Option ℕ) (s : State)
    → IsFair choose res
    → IsCopying src s
    → 0 < length s.slots
    → is_running src s ≡ true
    → Advances src s (round src choose res s)
unfolding round
round-Advances src choose res s (fair, whole) copying entry running =
    subst (λ b. Advances src s (if b then complete src (choose s'.slots) res s' else s'))
      (sym (lt→ltb 0 s'.active_reqs on)) advances
  where
    s' : State
    s' = refill (length src) s

    copying' : IsCopying src s'
    copying' = refill-IsCopying src s copying

    on : 0 < s'.active_reqs
    on = running-busy src s copying entry running

    picked : (x : Slot) × (get_elem? s'.slots (choose s'.slots) ≡ some x) × (0 < busy x)
    picked = fair s'.slots (omega (arith, on, copying'.3))

    completed : Advances src s' (complete src (choose s'.slots) res s')
    completed =
        complete-Advances src s' copying' (choose s'.slots) picked.0 res picked.1 picked.2 whole

    advances : Advances src s (complete src (choose s'.slots) res s')
    advances = (
      completed.0,
      omega (arith, completed.1, refill-rounds_left src s copying),
      completed.2 ∙ length-refill src s copying,
    )
