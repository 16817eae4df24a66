-- ===== src/Chat/Epoll/Reach.antt =====
-- hw4/server_epoll.c: runs over the events of all calls of `epoll_wait`.
use file_system_homework.Base.{
  ℕ, ◌≡◌, ◌<◌, ◌∙◌, inl, inr, refl, sym, arith, false, List, [], ◌∷◌, map,
}
use file_system_homework.Chat.Spec.{SpecRun, done, next}
use file_system_homework.Chat.Clients.{max_clients}
use file_system_homework.Chat.Clients.Counts.{count, count_fd}
use file_system_homework.Chat.Clients.Adding.{add_client-Joins, count_active}
use file_system_homework.Chat.Clients.View.{view, heard_from, heard_from-append}
use file_system_homework.Chat.Descriptors.{count-remove}
use file_system_homework.Chat.Epoll.{Event, accepted, Server, handle, run}
use file_system_homework.Chat.Epoll.Served.{IsServed, Happens, handle-IsServed, handle-Spec, input}

-- Each event happens where the events before it lead.
abbrev pub Happen : List Event → Server → Type 0
Happen [] s = Unit
Happen (e ∷ es) s = Happens e s × Happen es (handle e s).0

-- From a well-formed server, and for all events that the kernel may give, a run does to the table, and sends to each client
-- in order, what the specification of the room says.
pub run-SpecRun :
    (es : List Event) (s : Server)
    → IsServed s
    → Happen es s
    → SpecRun (view s.room) (map input es) (view (run es s).0.room) (heard_from (run es s).1)
unfolding run
run-SpecRun [] s good h = done ((λ fd. refl), refl, refl) (λ fd. refl)
run-SpecRun (e ∷ es) s good (h, hs) =
    next (heard_from (handle e s).1) (heard_from (run es (handle e s).0).1) (handle-Spec e s good h)
      (run-SpecRun es (handle e s).0 (handle-IsServed e s good h) hs)
      (λ fd. heard_from-append fd (handle e s).1 (run es (handle e s).0).1)

-- If, in a well-formed server with a free slot, `epoll_ctl` cannot register the descriptor of a new client, which was not
-- open, then the descriptor is closed but the client stays in the table.
pub accepted-unregistered :
    (fd addr : ℕ) (s : Server)
    → IsServed s
    → count fd s.open_fds ≡ 0
    → count_active s.room.clients < max_clients
    → let s' = (handle (accepted fd addr false) s).0 in
      (count fd s'.open_fds ≡ 0) × (count_fd fd s'.room.clients ≡ 1)
unfolding handle
accepted-unregistered fd addr s (room, is_open, is_watched) z room_left =
    elim (add_client-Joins fd addr s.room room (sym (is_open fd) ∙ z)) [
      | inl (e, full) ↦ absurd (omega (arith, full, room_left))
      | inr (s', e, lt, more, good, last, find, fds) ↦ rw e (
        ground (arith, count-remove fd fd (fd ∷ s.open_fds)),
        ground (arith, fds fd, is_open fd, z),
      )
    ]
