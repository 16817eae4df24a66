-- ===== src/Copy/Async/InOrder.antt =====
-- `async_io` of hw3: a ring that completes the request of the first buffer, in full.
use file_system_homework.Base.{
  ℕ, suc, ◌≡◌, ◌<◌, refl, arith, List, [], ◌∷◌, Option, some, get_elem?,
}
use file_system_homework.Copy.Async.{Slot, idle, reading, writing}
use file_system_homework.Copy.Async.Slots.{weight, busy, total}
use file_system_homework.Copy.Async.Rounds.{IsFair}

-- The request of the first buffer that has one completes.
unfoldable pub first_busy : List Slot → ℕ
first_busy [] = 0
first_busy (idle ∷ ss) = suc (first_busy ss)
first_busy (reading o n ∷ ss) = 0
first_busy (writing o b ∷ ss) = 0

first_busy_lem :
    (ss : List Slot)
    → 0 < total busy ss
    → (x : Slot) × (get_elem? ss (first_busy ss) ≡ some x) × (0 < busy x)
unfolding first_busy total
first_busy_lem [] h = absurd (omega (arith, h))
first_busy_lem (idle ∷ ss) h = first_busy_lem ss (omega (arith, h))
first_busy_lem (reading o n ∷ ss) h = (reading o n, refl, omega arith)
first_busy_lem (writing o b ∷ ss) h = (writing o b, refl, omega arith)

unfoldable pub whole : Slot → Option ℕ
whole s = some (weight s)

pub fair : (k : ℕ) → IsFair first_busy whole
unfolding whole
fair k = (first_busy_lem, λ x. refl)
