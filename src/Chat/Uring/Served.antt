-- ===== src/Chat/Uring/Served.antt =====
-- hw4/server_io_uring.c: the completions against the invariant and the specification.
use file_system_homework.Base.{
  ℕ, ◌≡◌, ◌∙◌, inl, inr, refl, sym, ap, arith, ◌∷◌, Option, some, none, c_string, take,
}
use file_system_homework.Chat.Spec.{Input, connects, says, quits, breaks, nothing, Spec, told}
use file_system_homework.Chat.Text.{chat_msg, quit_msg, recv_buffer, chat_text, quit_text}
use file_system_homework.Chat.Text.Whole.{chat_msg-recv_buffer, quit_msg_lem}
use file_system_homework.Chat.Clients.{Room, add_client, find_id}
use file_system_homework.Chat.Clients.Counts.{
  count, count_fd, IsRoom, empty_room-IsRoom, empty_room-count_fd,
}
use file_system_homework.Chat.Clients.Adding.{add_client-Joins, after}
use file_system_homework.Chat.Clients.Leaving.{deactivate_lem}
use file_system_homework.Chat.Clients.View.{
  view, heard_from, broadcast_msg-told, find_id-some, view-without, view-after,
}
use file_system_homework.Chat.Descriptors.{count-remove, count-remove_new, count-remove_back}
use file_system_homework.Chat.Uring.{
  Completion, accepted, accept_failed, received, hung_up, recv_failed, Server, start, handle,
  welcome, part, seen_accept, seen_recv, add_accept_request, add_recv_request,
}

-- The table is well formed, the clients in it are those whose descriptors are open, the ring holds one `EVENT_RECV`
-- request for each of them and no other, and one `EVENT_ACCEPT` request.
abbrev pub IsServed : Server → Type 0
IsServed s =
    IsRoom s.room
    × ((fd : ℕ) → count fd s.open_fds ≡ count_fd fd s.room.clients)
    × (s.accepts ≡ 1)
    × ((fd : ℕ) → count fd s.recvs ≡ count_fd fd s.room.clients)

-- What the kernel promises of a completion: it belongs to a request that the ring holds, and `accept` gives a
-- descriptor that is not open.
abbrev pub Happens : Completion → Server → Type 0
Happens (accepted fd addr) s = (count fd s.open_fds ≡ 0) × (s.accepts ≡ 1)
Happens accept_failed s = s.accepts ≡ 1
Happens (received fd bytes) s = count fd s.recvs ≡ 1
Happens (hung_up fd) s = count fd s.recvs ≡ 1
Happens (recv_failed fd) s = count fd s.recvs ≡ 1

pub start-IsServed : IsServed start
unfolding start add_accept_request
start-IsServed = (
  empty_room-IsRoom,
  (λ fd. sym (empty_room-count_fd fd)),
  refl,
  λ fd. sym (empty_room-count_fd fd),
)

part-IsServed : (fd : ℕ) (s : Server) → IsServed s → IsServed (part fd (seen_recv fd s))
part-IsServed fd s (room, is_open, one, is_pending) = (
  (deactivate_lem fd s.room room).0,
  (λ fd'. ground (
    arith,
    count-remove fd fd' s.open_fds,
    is_open fd',
    ((deactivate_lem fd s.room room).1 fd').1,
  )),
  one,
  λ fd'. ground (
    arith,
    count-remove fd fd' s.recvs,
    is_pending fd',
    ((deactivate_lem fd s.room room).1 fd').1,
  ),
)

accepted-IsServed :
    (fd addr : ℕ) (s : Server)
    → IsServed s
    → count fd s.open_fds ≡ 0
    → IsServed (handle (accepted fd addr) s).0
unfolding handle add_accept_request add_recv_request
accepted-IsServed fd addr s (room, is_open, one, is_pending) z =
    elim (add_client-Joins fd addr s.room room none_yet) [
      | inl (e, full) ↦ rw e (
        room,
        (λ fd'. count-remove_new fd fd' s.open_fds z ∙ is_open fd'),
        omega (arith, one),
        is_pending,
      )
      | inr (s', e, lt, more, good, last, find, fds) ↦ rw e (
        good,
        (λ fd'. omega (arith, fds fd', is_open fd')),
        omega (arith, one),
        λ fd'. omega (arith, fds fd', is_pending fd'),
      )
    ]
  where
    none_yet : count_fd fd s.room.clients ≡ 0
    none_yet = sym (is_open fd) ∙ z

-- Each completion keeps the server well formed.
pub handle-IsServed :
    (e : Completion) (s : Server) → IsServed s → Happens e s → IsServed (handle e s).0
unfolding handle add_accept_request add_recv_request
handle-IsServed (accepted fd addr) s good (z, ok) = accepted-IsServed fd addr s good z
handle-IsServed accept_failed s (room, is_open, one, is_pending) h =
    (room, is_open, omega (arith, one), is_pending)
handle-IsServed (received fd bytes) s (room, is_open, one, is_pending) h =
    (room, is_open, one, λ fd'. count-remove_back fd fd' s.recvs h ∙ is_pending fd')
handle-IsServed (hung_up fd) s good h = part-IsServed fd s good
handle-IsServed (recv_failed fd) s good h = part-IsServed fd s good

abbrev pub input : Completion → Input
input (accepted fd addr) = connects fd
input accept_failed = nothing
input (received fd bytes) = says fd bytes
input (hung_up fd) = quits fd
input (recv_failed fd) = breaks fd

welcome-room : (fd : ℕ) (s : Server) (o : Option Room) → (welcome fd s o).room ≡ after s.room o
unfolding add_recv_request
welcome-room fd s none = refl
welcome-room fd s (some room) = refl

-- Each completion does to the table, and sends to the clients, what the specification of the room says.
pub handle-Spec :
    (e : Completion) (s : Server)
    → IsServed s
    → Happens e s
    → Spec (input e) (view s.room) (view (handle e s).0.room) (heard_from (handle e s).1)
unfolding handle add_accept_request add_recv_request
handle-Spec (accepted fd addr) s (room, is_open, one, is_pending) (z, ok) =
    rw
      (welcome-room fd (seen_accept (record s { open_fds = fd ∷ s.open_fds }))
        (add_client fd addr s.room))
      (view-after fd addr s.room room (sym (is_open fd) ∙ z))
handle-Spec accept_failed s good h = (((λ fd. refl), refl, refl), λ fd. refl)
handle-Spec (received fd bytes) s (room, is_open, one, is_pending) h =
    let (n, e) = find_id-some fd s.room.clients (sym (is_pending fd) ∙ h) in
    (
      n,
      e,
      ((λ fd'. refl), refl, refl),
      λ fd'.
          broadcast_msg-told (chat_msg (find_id fd s.room.clients) (recv_buffer bytes)) fd s.room
            room fd'
          ∙ ap (λ t. told fd t (view s.room) fd')
              (chat_msg-recv_buffer (find_id fd s.room.clients) bytes
                ∙ ap (λ id. chat_text id (c_string (take 1023 bytes))) e),
    )
handle-Spec (hung_up fd) s (room, is_open, one, is_pending) h =
    let (n, e) = find_id-some fd s.room.clients (sym (is_pending fd) ∙ h) in
    (
      n,
      e,
      view-without fd s.room room (sym (is_pending fd) ∙ h),
      λ fd'.
          broadcast_msg-told (quit_msg (find_id fd s.room.clients)) fd s.room room fd'
          ∙ ap (λ t. told fd t (view s.room) fd')
              (quit_msg_lem (find_id fd s.room.clients) ∙ ap quit_text e),
    )
handle-Spec (recv_failed fd) s (room, is_open, one, is_pending) h =
    (view-without fd s.room room (sym (is_pending fd) ∙ h), λ fd'. refl)
