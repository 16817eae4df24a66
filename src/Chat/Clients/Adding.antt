-- ===== src/Chat/Clients/Adding.antt =====
-- A client that comes: `take_slot` and `add_client`.
use file_system_homework.Base.{
  ℕ, suc, ◌+◌, ◌≡◌, ◌≤◌, ◌<◌, refl, ap, subst, arith, Bool, true, false, List, [], ◌∷◌, Option,
  some, none, ◌==◌, if◌then◌else◌, length, ℕ_discrete, inl, inr, ◌⊎◌,
}
use file_system_homework.Chat.Clients.{
  Client, Room, behind, take_slot, with_total, add_client, find_id, max_clients,
}
use file_system_homework.Chat.Clients.Counts.{weight, count_fd, count_id, IsRoom}

-- The slots in use.
unfoldable pub count_active : List Client → ℕ
count_active [] = 0
count_active (c ∷ cs) = weight c.is_active + count_active cs

-- The first free slot is taken, the others stay.
data Took (new : Client) : List Client → List Client → Type 0 where
  here : {c : Client} {cs : List Client} → c.is_active ≡ false → Took new (c ∷ cs) (new ∷ cs)
  later :
      {c : Client} {cs cs' : List Client}
      → c.is_active ≡ true
      → Took new cs cs'
      → Took new (c ∷ cs) (c ∷ cs')

data Scan (new : Client) (cs : List Client) : Option (List Client) → Type 0 where
  full : count_active cs ≡ length cs → Scan new cs none
  took : {cs' : List Client} → Took new cs cs' → Scan new cs (some cs')

behind-Scan :
    (new c : Client) (cs : List Client) (o : Option (List Client)) (b : Bool)
    → c.is_active ≡ b
    → Scan new cs o
    → Scan new (c ∷ cs) (if b then behind c o else some (new ∷ cs))
unfolding count_active
behind-Scan new c cs o true e (full h) = full (ground (arith, e, h))
behind-Scan new c cs o true e (took t) = took (later e t)
behind-Scan new c cs o false e s = took (here e)

take_slot-Scan : (new : Client) (cs : List Client) → Scan new cs (take_slot new cs)
unfolding take_slot count_active
take_slot-Scan new [] = full refl
take_slot-Scan new (c ∷ cs) =
    behind-Scan new c cs (take_slot new cs) c.is_active refl (take_slot-Scan new cs)

Took-length : {new : Client} {cs cs' : List Client} → Took new cs cs' → length cs' ≡ length cs
Took-length (here e) = refl
Took-length (later e t) = ap suc (Took-length t)

pub count_active_le : (cs : List Client) → count_active cs ≤ length cs
unfolding count_active
count_active_le [] = omega arith
count_active_le (c ∷ cs) = ground (arith, count_active_le cs)

Took-active :
    {new : Client} {cs cs' : List Client} → Took new cs cs' → suc (count_active cs) ≤ length cs
unfolding count_active
Took-active {cs = []} t = elim t [ ]
Took-active {cs = c ∷ cs} (here e) = ground (arith, e, count_active_le cs)
Took-active {cs = c ∷ cs} (later e t) = ground (arith, e, Took-active t)

Took-count_active :
    {new : Client} {cs cs' : List Client}
    → new.is_active ≡ true
    → Took new cs cs'
    → count_active cs' ≡ suc (count_active cs)
unfolding count_active
Took-count_active {cs = []} on t = elim t [ ]
Took-count_active {cs = c ∷ cs} on (here e) = ground (arith, on, e)
Took-count_active {cs = c ∷ cs} on (later e t) = omega (arith, Took-count_active on t)

module _ {new : Client} (on : new.is_active ≡ true) where
  Took-count_fd :
      (fd : ℕ) {cs cs' : List Client}
      → Took new cs cs'
      → count_fd fd cs' ≡ weight (new.fd == fd) + count_fd fd cs
  unfolding count_fd
  Took-count_fd fd (here e) = ground (arith, on, e)
  Took-count_fd fd (later e t) = omega (arith, Took-count_fd fd t)

  Took-count_id :
      (id : ℕ) {cs cs' : List Client}
      → Took new cs cs'
      → count_id id cs' ≡ weight (new.id == id) + count_id id cs
  unfolding count_id
  Took-count_id id (here e) = ground (arith, on, e)
  Took-count_id id (later e t) = omega (arith, Took-count_id id t)

  Took-find_id :
      (fd : ℕ) {cs cs' : List Client}
      → Took new cs cs'
      → count_fd new.fd cs ≡ 0
      → find_id fd cs' ≡ (if new.fd == fd then some new.id else find_id fd cs)
  unfolding count_fd find_id
  Took-find_id fd (here e) z = ground (arith, on, e)
  Took-find_id fd {cs = c ∷ cs} (later e t) z = ground (arith, Took-find_id fd t)

abbrev newcomer : (fd addr : ℕ) → Room → Client
newcomer fd addr s = record { fd = fd; id = suc s.total_connections; addr = addr; is_active = true }

-- The two outcomes of `add_client`.
pub data Added (fd addr : ℕ) (s : Room) : Option Room → Type 0 where
  turned_away : count_active s.clients ≡ length s.clients → Added fd addr s none
  admitted :
      {s' : Room}
      → count_active s.clients < length s.clients
      → length s'.clients ≡ length s.clients
      → count_active s'.clients ≡ suc (count_active s.clients)
      → s'.total_connections ≡ suc s.total_connections
      → ((fd' : ℕ) → count_fd fd' s'.clients ≡ weight (fd == fd') + count_fd fd' s.clients)
      → ((id : ℕ)
          → count_id id s'.clients ≡ weight (suc s.total_connections == id) + count_id id s.clients)
      → ((fd' : ℕ)
          → count_fd fd s.clients ≡ 0
          → find_id fd' s'.clients
            ≡ (if fd == fd' then some (suc s.total_connections) else find_id fd' s.clients))
      → Added fd addr s (some s')

with_total-Added :
    (fd addr : ℕ) (s : Room) {o : Option (List Client)}
    → Scan (newcomer fd addr s) s.clients o
    → Added fd addr s (with_total (suc s.total_connections) o)
with_total-Added fd addr s (full h) = turned_away h
with_total-Added fd addr s (took t) =
    admitted (omega (arith, Took-active t)) (Took-length t) (Took-count_active refl t) refl
      (λ fd'. Took-count_fd refl fd' t) (λ id. Took-count_id refl id t)
      (λ fd' z. Took-find_id refl fd' t z)

pub add_client-Added : (fd addr : ℕ) (s : Room) → Added fd addr s (add_client fd addr s)
unfolding add_client
add_client-Added fd addr s =
    with_total-Added fd addr s (take_slot-Scan (newcomer fd addr s) s.clients)

-- The room of an outcome of `add_client`: as before if there is none.
abbrev pub after : Room → Option Room → Room
after s none = s
after s (some s') = s'

one_at : (a b : ℕ) (f : ℕ → ℕ) → f a ≡ 0 → f b ≤ 1 → weight (a == b) + f b ≤ 1
one_at a b f z h = elim (ℕ_discrete a b) [
  | yes p ↦ let e : f b ≡ 0 = subst (λ x. f x ≡ 0) p z in ground (arith, e)
  | no p ↦ ground (arith, h, p)
]

Added-IsRoom :
    {fd addr : ℕ} {s : Room} {o : Option Room}
    → IsRoom s
    → count_fd fd s.clients ≡ 0
    → Added fd addr s o
    → IsRoom (after s o)
Added-IsRoom room z (turned_away h) = room
Added-IsRoom {fd = fd} {s = s} (len, fds, ids, fresh) z
      (admitted {s' = s'} lt l a t by_fd by_id find) =
    (
      omega (arith, l, len),
      (λ fd'. omega (arith, by_fd fd', one_at fd fd' (λ x. count_fd x s.clients) z (fds fd'))),
      (λ id. ground (arith, by_id id, ids id, fresh (suc s.total_connections))),
      λ id h. ground (arith, by_id id, fresh id, t),
    )

-- What a client that comes may expect of the room `o` behind it: it is turned away exactly if all the slots are in use.
-- Otherwise it gets the next number under its descriptor and the other clients keep theirs.
abbrev pub Joins : (fd : ℕ) (s : Room) → Option Room → Type 0
Joins fd s o =
    ((o ≡ none) × (count_active s.clients ≡ max_clients))
    ⊎ ((s' : Room) × (o ≡ some s')
        × (count_active s.clients < max_clients)
        × (count_active s'.clients ≡ suc (count_active s.clients))
        × IsRoom s'
        × (s'.total_connections ≡ suc s.total_connections)
        × ((fd' : ℕ)
            → find_id fd' s'.clients
              ≡ (if fd == fd' then some (suc s.total_connections) else find_id fd' s.clients))
        × ((fd' : ℕ) → count_fd fd' s'.clients ≡ weight (fd == fd') + count_fd fd' s.clients))

Added-Joins :
    {fd addr : ℕ} {s : Room} {o : Option Room}
    → IsRoom s
    → count_fd fd s.clients ≡ 0
    → Added fd addr s o
    → Joins fd s o
Added-Joins {s = s} room z (turned_away h) = inl (refl, omega (arith, h, room.0))
Added-Joins {addr = addr} {s = s} room z (admitted {s' = s'} lt l a t by_fd by_id find) = inr (
  s',
  refl,
  omega (arith, lt, room.0),
  a,
  Added-IsRoom {addr = addr} room z (admitted lt l a t by_fd by_id find),
  t,
  (λ fd'. find fd' z),
  by_fd,
)

-- A client that comes, under a descriptor that no client has, is turned away exactly if all the slots are in use.
-- Otherwise it gets the next number under its descriptor, the other clients keep theirs, and the room is well formed.
pub add_client-Joins :
    (fd addr : ℕ) (s : Room)
    → IsRoom s
    → count_fd fd s.clients ≡ 0
    → Joins fd s (add_client fd addr s)
add_client-Joins fd addr s room z = Added-Joins room z (add_client-Added fd addr s)
