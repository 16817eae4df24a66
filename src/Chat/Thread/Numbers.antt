-- ===== src/Chat/Thread/Numbers.antt =====
-- hw4/server_thread.c: the number under which a client speaks, which its thread looks up once.
use file_system_homework.Base.{
  ℕ, suc, ◌+◌, ◌≡◌, ◌≤◌, ◌∙◌, refl, arith, true, false, List, [], ◌∷◌, ◌++◌, some, none, ◌==◌,
  length,
}
use file_system_homework.Chat.Clients.{Client, Room, take_slot, add_client, find_id}
use file_system_homework.Chat.Clients.Counts.{weight, count_fd}
use file_system_homework.Chat.Clients.Adding.{count_active, count_active_le}
use file_system_homework.Chat.Thread.{lookup_id}

-- The slots that hold a descriptor, in use or not.
unfoldable pub count_slots : ℕ → List Client → ℕ
count_slots fd [] = 0
count_slots fd (c ∷ cs) = weight (c.fd == fd) + count_slots fd cs

count_fd_le : (fd : ℕ) (cs : List Client) → count_fd fd cs ≤ count_slots fd cs
unfolding count_fd count_slots
count_fd_le fd [] = omega arith
count_fd_le fd (c ∷ cs) = ground (arith, count_fd_le fd cs)

lookup_id-none : (fd : ℕ) (cs : List Client) → count_slots fd cs ≡ 0 → lookup_id fd cs ≡ none
unfolding lookup_id count_slots
lookup_id-none fd [] h = refl
lookup_id-none fd (c ∷ cs) h = ground (arith, h, lookup_id-none fd cs)

-- The thread finds the number of its client if no slot out of use still holds its descriptor, and no two slots in use
-- do.
pub lookup_id-find_id :
    (fd : ℕ) (cs : List Client)
    → count_slots fd cs ≡ count_fd fd cs
    → count_fd fd cs ≤ 1
    → lookup_id fd cs ≡ find_id fd cs
unfolding lookup_id find_id count_slots count_fd
lookup_id-find_id fd [] h k = refl
lookup_id-find_id fd (c ∷ cs) h k =
    ground (arith, h, k, count_fd_le fd cs, lookup_id-none fd cs, lookup_id-find_id fd cs)

later_found :
    (fd n : ℕ) (front back : List Client)
    → lookup_id fd back ≡ some n
    → lookup_id fd (front ++ back) ≡ some n
unfolding lookup_id
later_found fd n [] back h = h
later_found fd n (c ∷ front) back h = rw (later_found fd n front back h) refl

take_slot-append :
    (new free : Client) (front back : List Client)
    → count_active front ≡ length front
    → free.is_active ≡ false
    → take_slot new (front ++ (free ∷ back)) ≡ some (front ++ (new ∷ back))
unfolding take_slot count_active
take_slot-append new free [] back h k = rw k refl
take_slot-append new free (c ∷ front) back h k =
    let on : c.is_active ≡ true = ground (arith, h, count_active_le front) in
    let rest : count_active front ≡ length front = ground (arith, h, on) in
    rw (on, take_slot-append new free front back rest k) refl

find_id-append :
    (fd : ℕ) (front back : List Client)
    → count_fd fd front ≡ 0
    → find_id fd (front ++ back) ≡ find_id fd back
unfolding find_id count_fd
find_id-append fd [] back h = refl
find_id-append fd (c ∷ front) back h = ground (arith, h, find_id-append fd front back)

find_id_head :
    (new : Client) (back : List Client)
    → new.is_active ≡ true
    → find_id new.fd (new ∷ back) ≡ some new.id
unfolding find_id
find_id_head new back h = ground (arith, h)

lookup_id_head :
    (fd n : ℕ) (new : Client) (back : List Client)
    → lookup_id fd back ≡ some n
    → lookup_id fd (new ∷ back) ≡ some n
unfolding lookup_id
lookup_id_head fd n new back h = rw h refl

-- A client that comes takes the first slot out of use. If a slot behind it still holds its descriptor, from a client that
-- left, and no slot in use before it does, then the table has the next number for it, and its thread speaks under the number
-- of the client that left.
pub lookup_id_stale :
    (fd addr n total : ℕ) (front : List Client) (free : Client) (back : List Client)
    → count_active front ≡ length front
    → free.is_active ≡ false
    → count_fd fd front ≡ 0
    → lookup_id fd back ≡ some n
    → (s' : Room) × (add_client fd addr
          (record { clients = front ++ (free ∷ back); total_connections = total })
        ≡ some s')
      × (find_id fd s'.clients ≡ some (suc total))
      × (lookup_id fd s'.clients ≡ some n)
unfolding add_client
lookup_id_stale fd addr n total front free back h k b stale = (
  record { clients = front ++ (new ∷ back); total_connections = suc total },
  rw (take_slot-append new free front back h k) refl,
  find_id-append fd front (new ∷ back) b ∙ find_id_head new back refl,
  later_found fd n front (new ∷ back) (lookup_id_head fd n new back stale),
)
  where
    new : Client
    new = record { fd = fd; id = suc total; addr = addr; is_active = true }
