-- ===== src/Chat/Thread/Served.antt =====
-- hw4/server_thread.c: the invariant of the interleavings.
use file_system_homework.Base.{
  ℕ, zero, suc, ◌+◌, ◌≡◌, ◌≤◌, inl, inr, ap, subst, arith, List, [], ◌∷◌, some, none, get_elem?,
  set, ◌==◌, ℕ_discrete,
}
use file_system_homework.Chat.Clients.{Send}
use file_system_homework.Chat.Clients.Counts.{
  weight, count_fd, IsRoom, empty_room-IsRoom, empty_room-count_fd,
}
use file_system_homework.Chat.Clients.Adding.{add_client-Joins}
use file_system_homework.Chat.Clients.Leaving.{without-IsRoom, count_fd-deactivate}
use file_system_homework.Chat.Thread.{
  Phase, leaving, closing, ended, Thread, Server, accept, move, look_up, hang_up, leave, is_open,
  is_in_table, total, Step, accepts, looks_up, speaks, hangs_up, leaves, closes, Reach, starts,
  later,
}

-- The table is well formed, the clients in it are those whose threads have not left, and no two threads have the same
-- descriptor open.
abbrev pub IsServed : Server → Type 0
IsServed s =
    IsRoom s.room
    × ((fd : ℕ) → count_fd fd s.room.clients ≡ total (is_in_table fd) s.threads)
    × ((fd : ℕ) → total (is_open fd) s.threads ≤ 1)

pub some_injective : {t t' : Thread} → some t ≡ some t' → t ≡ t'
some_injective {t} e = ap (λ o. elim o [ none ↦ t | some x ↦ x ]) e

total-set :
    (f : Thread → ℕ) (ts : List Thread) (i : ℕ) (old new : Thread)
    → get_elem? ts i ≡ some old
    → total f (set ts i new) + f old ≡ total f ts + f new
unfolding total
total-set f [] i old new e = absurd cc
total-set f (t ∷ ts) zero old new e =
    let same : t ≡ old = some_injective e in omega (arith, ap f same)
total-set f (t ∷ ts) (suc i) old new e = omega (arith, total-set f ts i old new e)

pub in_table_le : (fd : ℕ) (ts : List Thread) → total (is_in_table fd) ts ≤ total (is_open fd) ts
unfolding total
in_table_le fd [] = omega arith
in_table_le fd (t ∷ ts) = ground (arith, in_table_le fd ts)

accept-IsServed :
    (fd addr : ℕ) (s : Server)
    → IsServed s
    → total (is_open fd) s.threads ≡ 0
    → IsServed (accept fd addr s)
unfolding accept total
accept-IsServed fd addr s (room, table, distinct) z =
    elim (add_client-Joins fd addr s.room room
      (omega (arith, table fd, in_table_le fd s.threads, z))) [
        | inl (e, full) ↦ rw e (room, table, distinct)
        | inr (s', e, lt, more, good, last, find, fds) ↦
            rw e
              (good, (λ fd'. omega (arith, fds fd', table fd')), λ fd'. one fd' (ℕ_discrete fd fd'))
      ]
  where
    one : (fd' : ℕ) → Dec (fd ≡ fd') → weight (fd == fd') + total (is_open fd') s.threads ≤ 1
    one fd' (yes p) =
        let none_open : total (is_open fd') s.threads ≡ 0 =
          subst (λ x. total (is_open x) s.threads ≡ 0) p z in
        ground (arith, none_open)
    one fd' (no p) = ground (arith, p, distinct fd')

-- A thread that goes on while the table stays as it is.
move-IsServed :
    (i : ℕ) (t : Thread) (p : Phase) (s : Server)
    → IsServed s
    → get_elem? s.threads i ≡ some t
    → ((fd : ℕ) → is_in_table fd (record t { phase = p }) ≡ is_in_table fd t)
    → ((fd : ℕ) → is_open fd (record t { phase = p }) ≤ is_open fd t)
    → IsServed (move i t p s)
move-IsServed i t p s (room, table, distinct) e in_table open_fd = (
  room,
  (λ fd. omega (
    arith,
    total-set (is_in_table fd) s.threads i t (record t { phase = p }) e,
    table fd,
    in_table fd,
  )),
  λ fd. omega (
    arith,
    total-set (is_open fd) s.threads i t (record t { phase = p }) e,
    distinct fd,
    open_fd fd,
  ),
)

leave-IsServed :
    (i : ℕ) (t : Thread) (s : Server)
    → IsServed s
    → get_elem? s.threads i ≡ some t
    → t.phase ≡ leaving
    → IsServed (leave i t s)
unfolding leave
leave-IsServed i t s (room, table, distinct) e p = (
  without-IsRoom t.fd s.room room,
  (λ fd. ground (
    arith,
    total-set (is_in_table fd) s.threads i t (record t { phase = closing }) e,
    table fd,
    count_fd-deactivate t.fd fd s.room.clients,
    p,
  )),
  λ fd. ground (
    arith,
    total-set (is_open fd) s.threads i t (record t { phase = closing }) e,
    distinct fd,
    p,
  ),
)

Step-IsServed : {s s' : Server} {sends : List Send} → Step s s' sends → IsServed s → IsServed s'
unfolding look_up hang_up
Step-IsServed {s} (accepts fd addr z) good = accept-IsServed fd addr s good z
Step-IsServed {s} (looks_up i t e p) good =
    move-IsServed i t _ s good e (λ fd. ground (arith, p)) (λ fd. ground (arith, p))
Step-IsServed (speaks i t id bytes e p) good = good
Step-IsServed {s} (hangs_up i t id closed e p) good =
    move-IsServed i t leaving s good e (λ fd. ground (arith, p)) (λ fd. ground (arith, p))
Step-IsServed {s} (leaves i t e p) good = leave-IsServed i t s good e p
Step-IsServed {s} (closes i t e p) good =
    move-IsServed i t ended s good e (λ fd. ground (arith, p)) (λ fd. ground (arith, p))

-- In every interleaving of the threads the table is well formed, the clients in it are those whose threads have not left,
-- and no two threads have the same descriptor open.
pub Reach-IsServed : {s : Server} → Reach s → IsServed s
unfolding total
Reach-IsServed starts = (empty_room-IsRoom, empty_room-count_fd, λ fd. omega arith)
Reach-IsServed (later sends r step) = Step-IsServed step (Reach-IsServed r)
