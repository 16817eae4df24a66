-- ===== src/Chat/Clients/Leaving.antt =====
-- A client that leaves: `deactivate`.
use file_system_homework.Base.{
  ℕ, ◌-◌, ◌≡◌, ◌≤◌, refl, arith, List, [], ◌∷◌, none, ◌==◌, if◌then◌else◌, length,
}
use file_system_homework.Chat.Clients.{Client, Room, deactivate, find_id}
use file_system_homework.Chat.Clients.Counts.{weight, count_fd, count_id, IsRoom, find_id-count_fd}

abbrev pub without : ℕ → Room → Room
without fd s = record s { clients = deactivate fd s.clients }

deactivate-length : (fd : ℕ) (cs : List Client) → length (deactivate fd cs) ≡ length cs
unfolding deactivate
deactivate-length fd [] = refl
deactivate-length fd (c ∷ cs) = ground (arith, deactivate-length fd cs)

pub count_fd-deactivate :
    (fd fd' : ℕ) (cs : List Client)
    → count_fd fd' (deactivate fd cs) ≡ count_fd fd' cs - weight (fd' == fd)
unfolding deactivate count_fd
count_fd-deactivate fd fd' [] = omega arith
count_fd-deactivate fd fd' (c ∷ cs) = ground (arith, count_fd-deactivate fd fd' cs)

count_id-deactivate :
    (fd id : ℕ) (cs : List Client) → count_id id (deactivate fd cs) ≤ count_id id cs
unfolding deactivate count_id
count_id-deactivate fd id [] = omega arith
count_id-deactivate fd id (c ∷ cs) = ground (arith, count_id-deactivate fd id cs)

pub find_id-deactivate :
    (fd fd' : ℕ) (cs : List Client)
    → count_fd fd cs ≤ 1
    → find_id fd' (deactivate fd cs) ≡ (if fd' == fd then none else find_id fd' cs)
unfolding deactivate count_fd find_id
find_id-deactivate fd fd' [] h = ground arith
find_id-deactivate fd fd' (c ∷ cs) h =
    ground (arith, find_id-deactivate fd fd' cs, find_id-count_fd fd cs)

pub without-IsRoom : (fd : ℕ) (s : Room) → IsRoom s → IsRoom (without fd s)
without-IsRoom fd s (len, fds, ids, fresh) = (
  omega (arith, deactivate-length fd s.clients, len),
  (λ fd'. omega (arith, count_fd-deactivate fd fd' s.clients, fds fd')),
  (λ id. omega (arith, count_id-deactivate fd id s.clients, ids id)),
  λ id h. omega (arith, count_id-deactivate fd id s.clients, fresh id h),
)

-- A client that leaves gives up its slot: its descriptor has no number any more, the other clients keep theirs, and
-- the room is well formed.
pub deactivate_lem :
    (fd : ℕ) (s : Room)
    → IsRoom s
    → IsRoom (without fd s)
      × ((fd' : ℕ)
          → (find_id fd' (deactivate fd s.clients)
              ≡ (if fd' == fd then none else find_id fd' s.clients))
            × (count_fd fd' (deactivate fd s.clients)
                ≡ (if fd' == fd then 0 else count_fd fd' s.clients)))
deactivate_lem fd s room = (
  without-IsRoom fd s room,
  λ fd'. (
    find_id-deactivate fd fd' s.clients (room.1 fd),
    ground (arith, count_fd-deactivate fd fd' s.clients, room.1 fd'),
  ),
)
