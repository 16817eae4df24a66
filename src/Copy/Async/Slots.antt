-- ===== src/Copy/Async/Slots.antt =====
-- `async_io` of hw3: what the buffers hold, as bytes under way, requests, and the parts of the file that they are for.
use file_system_homework.Base.{
  ℕ, zero, suc, ◌+◌, ◌*◌, ◌≡◌, ◌≤◌, ◌<◌, ◌⊎◌, refl, ap, subst, arith, Bool, true, false, ◌&&◌, ◌||◌,
  List, [], ◌∷◌, some, none, length, get_elem?, set, slice, ltb, leb,
}
use file_system_homework.Copy.Async.{Slot, idle, reading, writing}

abbrev pub weight : Slot → ℕ
weight idle = 0
weight (reading o n) = n
weight (writing o b) = length b

-- Each request takes the bytes one step on: from unread to read to written.
abbrev pub steps_left : Slot → ℕ
steps_left idle = 0
steps_left (reading o n) = 2 * n
steps_left (writing o b) = length b

abbrev pub busy : Slot → ℕ
busy idle = 0
busy (reading o n) = 1
busy (writing o b) = 1

abbrev pub holds : ℕ → Slot → Bool
holds j idle = false
holds j (reading o n) = leb o j && ltb j (o + n)
holds j (writing o b) = leb o j && ltb j (o + length b)

unfoldable pub total : (Slot → ℕ) → List Slot → ℕ
total f [] = 0
total f (s ∷ ss) = f s + total f ss

unfoldable pub covers : ℕ → List Slot → Bool
covers j [] = false
covers j (s ∷ ss) = holds j s || covers j ss

-- A request is for a part of the file that is not empty and lies before `offset`; a buffer that is written holds
-- just that part.
abbrev pub IsRequest : List ℕ → ℕ → Slot → Type 0
IsRequest src offset idle = Unit
IsRequest src offset (reading o n) = (0 < n) × (o + n ≤ offset)
IsRequest src offset (writing o b) =
    (0 < length b) × (o + length b ≤ offset) × (b ≡ slice o (length b) src)

abbrev pub AreRequests : List ℕ → ℕ → List Slot → Type 0
AreRequests src offset [] = Unit
AreRequests src offset (s ∷ ss) = IsRequest src offset s × AreRequests src offset ss

some_injective : {s s' : Slot} → some s ≡ some s' → s ≡ s'
some_injective {s} e = ap (λ o. elim o [ none ↦ s | some x ↦ x ]) e

pub total-set :
    (f : Slot → ℕ) (ss : List Slot) (i : ℕ) (old new : Slot)
    → get_elem? ss i ≡ some old
    → total f (set ss i new) + f old ≡ total f ss + f new
unfolding total
total-set f [] i old new e = absurd cc
total-set f (s ∷ ss) zero old new e =
    let s_old : s ≡ old = some_injective e in omega (arith, ap f s_old)
total-set f (s ∷ ss) (suc i) old new e = omega (arith, total-set f ss i old new e)

pub covers-set :
    (j : ℕ) (ss : List Slot) (i : ℕ) (old new : Slot)
    → get_elem? ss i ≡ some old
    → covers j ss ≡ true
    → (holds j old ≡ true) ⊎ (covers j (set ss i new) ≡ true)
unfolding covers
covers-set j [] i old new e h = absurd cc
covers-set j (s ∷ ss) zero old new e h =
    let s_old : s ≡ old = some_injective e in
    subst (λ x. (holds j x ≡ true) ⊎ (covers j (new ∷ ss) ≡ true)) s_old (ground (arith, h))
covers-set j (s ∷ ss) (suc i) old new e h = ground (arith, h, covers-set j ss i old new e)

pub AreRequests-get :
    (src : List ℕ) (offset : ℕ) (ss : List Slot) (i : ℕ) (s : Slot)
    → get_elem? ss i ≡ some s
    → AreRequests src offset ss
    → IsRequest src offset s
AreRequests-get src offset [] i s e h = absurd cc
AreRequests-get src offset (x ∷ ss) zero s e (h, hs) =
    subst (IsRequest src offset) (some_injective e) h
AreRequests-get src offset (x ∷ ss) (suc i) s e (h, hs) = AreRequests-get src offset ss i s e hs

pub AreRequests-set :
    (src : List ℕ) (offset : ℕ) (ss : List Slot) (i : ℕ) (s : Slot)
    → AreRequests src offset ss
    → IsRequest src offset s
    → AreRequests src offset (set ss i s)
AreRequests-set src offset [] i s h r = tt
AreRequests-set src offset (x ∷ ss) zero s (h, hs) r = (r, hs)
AreRequests-set src offset (x ∷ ss) (suc i) s (h, hs) r =
    (h, AreRequests-set src offset ss i s hs r)

pub total-weight-busy : (ss : List Slot) → total busy ss ≡ 0 → total weight ss ≡ 0
unfolding total
total-weight-busy [] h = refl
total-weight-busy (idle ∷ ss) h = omega (arith, total-weight-busy ss (omega (arith, h)))
total-weight-busy (reading o n ∷ ss) h = absurd (omega (arith, h))
total-weight-busy (writing o b ∷ ss) h = absurd (omega (arith, h))

pub covers-busy : (j : ℕ) (ss : List Slot) → covers j ss ≡ true → 0 < total busy ss
unfolding total covers
covers-busy j [] h = absurd cc
covers-busy j (idle ∷ ss) h = omega (arith, covers-busy j ss h)
covers-busy j (reading o n ∷ ss) h = omega arith
covers-busy j (writing o b ∷ ss) h = omega arith

pub covers-set_new :
    (j : ℕ) (ss : List Slot) (i : ℕ) (old new : Slot)
    → get_elem? ss i ≡ some old
    → holds j new ≡ true
    → covers j (set ss i new) ≡ true
unfolding covers
covers-set_new j [] i old new e h = absurd cc
covers-set_new j (s ∷ ss) zero old new e h = ground (arith, h)
covers-set_new j (s ∷ ss) (suc i) old new e h = ground (arith, covers-set_new j ss i old new e h)
