-- ===== src/Chat/Clients/Counts.antt =====
-- How often a descriptor or a number stands in the active slots, and what a table always satisfies.
use file_system_homework.Base.{
  ℕ, zero, suc, ◌+◌, ◌≡◌, ◌≤◌, ◌<◌, refl, arith, Bool, true, false, ◌&&◌, List, [], ◌∷◌, none,
  replicate, ◌==◌, if◌then◌else◌, length, length-replicate,
}
use file_system_homework.Chat.Clients.{
  Client, Room, empty_client, empty_room, max_clients, recipients, find_id,
}

abbrev pub weight : Bool → ℕ
weight true = 1
weight false = 0

abbrev pub count : ℕ → List ℕ → ℕ
count n [] = 0
count n (x ∷ xs) = weight (x == n) + count n xs

unfoldable pub count_fd : ℕ → List Client → ℕ
count_fd fd [] = 0
count_fd fd (c ∷ cs) = weight (c.is_active && (c.fd == fd)) + count_fd fd cs

unfoldable pub count_id : ℕ → List Client → ℕ
count_id id [] = 0
count_id id (c ∷ cs) = weight (c.is_active && (c.id == id)) + count_id id cs

-- No descriptor and no number stands in two active slots, and no number is beyond `total_connections`.
abbrev pub IsRoom : Room → Type 0
IsRoom s =
    (length s.clients ≡ max_clients)
    × ((fd : ℕ) → count_fd fd s.clients ≤ 1)
    × ((id : ℕ) → count_id id s.clients ≤ 1)
    × ((id : ℕ) → s.total_connections < id → count_id id s.clients ≡ 0)

count_fd-replicate : (fd n : ℕ) → count_fd fd (replicate n empty_client) ≡ 0
unfolding count_fd
count_fd-replicate fd zero = refl
count_fd-replicate fd (suc n) = omega (arith, count_fd-replicate fd n)

count_id-replicate : (id n : ℕ) → count_id id (replicate n empty_client) ≡ 0
unfolding count_id
count_id-replicate id zero = refl
count_id-replicate id (suc n) = omega (arith, count_id-replicate id n)

pub empty_room-IsRoom : IsRoom empty_room
unfolding empty_room
empty_room-IsRoom = (
  length-replicate {A = Client} 100 empty_client,
  (λ fd. omega (arith, count_fd-replicate fd 100)),
  (λ id. omega (arith, count_id-replicate id 100)),
  λ id h. count_id-replicate id 100,
)

pub empty_room-count_fd : (fd : ℕ) → count_fd fd empty_room.clients ≡ 0
unfolding empty_room
empty_room-count_fd fd = count_fd-replicate fd 100

-- `broadcast_msg` sends to every active descriptor as often as it stands in the table, but never to the sender.
pub count-recipients :
    (sender fd : ℕ) (cs : List Client)
    → count fd (recipients sender cs) ≡ (if fd == sender then 0 else count_fd fd cs)
unfolding recipients count_fd
count-recipients sender fd [] = ground arith
count-recipients sender fd (c ∷ cs) = ground (arith, count-recipients sender fd cs)

-- The number that the scan finds for a client is the number of a slot, and it finds one exactly for the descriptors in the table.
pub find_id-count_fd : (fd : ℕ) (cs : List Client) → count_fd fd cs ≡ 0 → find_id fd cs ≡ none
unfolding find_id count_fd
find_id-count_fd fd [] h = refl
find_id-count_fd fd (c ∷ cs) h = ground (arith, find_id-count_fd fd cs)
