-- ===== src/Chat/Epoll/Served.antt =====
-- hw4/server_epoll.c: the events against the invariant and the specification.
use file_system_homework.Base.{
  ℕ, ◌≡◌, ◌∙◌, inl, inr, refl, sym, ap, arith, Bool, true, false, ◌∷◌, Option, some, none, c_string,
  take,
}
use file_system_homework.Chat.Spec.{Input, connects, says, quits, breaks, nothing, Spec, told}
use file_system_homework.Chat.Text.{chat_msg, quit_msg, recv_buffer, chat_text, quit_text}
use file_system_homework.Chat.Text.Whole.{chat_msg-recv_buffer, quit_msg_lem}
use file_system_homework.Chat.Clients.{Room, add_client, find_id}
use file_system_homework.Chat.Clients.Counts.{
  count, count_fd, IsRoom, empty_room-IsRoom, empty_room-count_fd,
}
use file_system_homework.Chat.Clients.Adding.{add_client-Joins, after}
use file_system_homework.Chat.Clients.Leaving.{deactivate_lem}
use file_system_homework.Chat.Clients.View.{
  view, heard_from, broadcast_msg-told, find_id-some, view-without, view-after,
}
use file_system_homework.Chat.Descriptors.{count-remove, count-remove_new}
use file_system_homework.Chat.Epoll.{
  Event, accepted, accept_failed, received, hung_up, recv_failed, Server, start, handle, welcome,
  part,
}

-- The table is well formed, and the clients in it are those whose descriptors are open and watched.
abbrev pub IsServed : Server → Type 0
IsServed s =
    IsRoom s.room
    × ((fd : ℕ) → count fd s.open_fds ≡ count_fd fd s.room.clients)
    × ((fd : ℕ) → count fd s.watched ≡ count_fd fd s.room.clients)

-- What the kernel promises of an event: `accept` gives a descriptor that is not open, and the other events are at a
-- descriptor that epoll watches. Registering the new descriptor succeeds.
abbrev pub Happens : Event → Server → Type 0
Happens (accepted fd addr registered) s = (count fd s.open_fds ≡ 0) × (registered ≡ true)
Happens accept_failed s = Unit
Happens (received fd bytes) s = count fd s.watched ≡ 1
Happens (hung_up fd) s = count fd s.watched ≡ 1
Happens (recv_failed fd) s = count fd s.watched ≡ 1

pub start-IsServed : IsServed start
start-IsServed =
    (empty_room-IsRoom, (λ fd. sym (empty_room-count_fd fd)), λ fd. sym (empty_room-count_fd fd))

part-IsServed : (fd : ℕ) (s : Server) → IsServed s → IsServed (part fd s)
part-IsServed fd s (room, is_open, is_watched) = (
  (deactivate_lem fd s.room room).0,
  (λ fd'. ground (
    arith,
    count-remove fd fd' s.open_fds,
    is_open fd',
    ((deactivate_lem fd s.room room).1 fd').1,
  )),
  λ fd'. ground (
    arith,
    count-remove fd fd' s.watched,
    is_watched fd',
    ((deactivate_lem fd s.room room).1 fd').1,
  ),
)

accepted-IsServed :
    (fd addr : ℕ) (s : Server)
    → IsServed s
    → count fd s.open_fds ≡ 0
    → IsServed (handle (accepted fd addr true) s).0
unfolding handle
accepted-IsServed fd addr s (room, is_open, is_watched) z =
    elim (add_client-Joins fd addr s.room room none_yet) [
      | inl (e, full) ↦
          rw e (room, (λ fd'. count-remove_new fd fd' s.open_fds z ∙ is_open fd'), is_watched)
      | inr (s', e, lt, more, good, last, find, fds) ↦ rw e (
        good,
        (λ fd'. omega (arith, fds fd', is_open fd')),
        λ fd'. omega (arith, fds fd', is_watched fd'),
      )
    ]
  where
    none_yet : count_fd fd s.room.clients ≡ 0
    none_yet = sym (is_open fd) ∙ z

-- Each event keeps the server well formed.
pub handle-IsServed : (e : Event) (s : Server) → IsServed s → Happens e s → IsServed (handle e s).0
unfolding handle
handle-IsServed (accepted fd addr true) s good (z, ok) = accepted-IsServed fd addr s good z
handle-IsServed (accepted fd addr false) s good (z, ok) = absurd cc
handle-IsServed accept_failed s good h = good
handle-IsServed (received fd bytes) s good h = good
handle-IsServed (hung_up fd) s good h = part-IsServed fd s good
handle-IsServed (recv_failed fd) s good h = part-IsServed fd s good

abbrev pub input : Event → Input
input (accepted fd addr registered) = connects fd
input accept_failed = nothing
input (received fd bytes) = says fd bytes
input (hung_up fd) = quits fd
input (recv_failed fd) = breaks fd

welcome-room :
    (fd : ℕ) (r : Bool) (s : Server) (o : Option Room) → (welcome fd r s o).room ≡ after s.room o
welcome-room fd r s none = refl
welcome-room fd true s (some room) = refl
welcome-room fd false s (some room) = refl

-- Each event does to the table, and sends to the clients, what the specification of the room says.
pub handle-Spec :
    (e : Event) (s : Server)
    → IsServed s
    → Happens e s
    → Spec (input e) (view s.room) (view (handle e s).0.room) (heard_from (handle e s).1)
unfolding handle
handle-Spec (accepted fd addr registered) s (room, is_open, is_watched) (z, ok) =
    rw
      (welcome-room fd registered (record s { open_fds = fd ∷ s.open_fds })
        (add_client fd addr s.room))
      (view-after fd addr s.room room (sym (is_open fd) ∙ z))
handle-Spec accept_failed s good h = (((λ fd. refl), refl, refl), λ fd. refl)
handle-Spec (received fd bytes) s (room, is_open, is_watched) h =
    let (n, e) = find_id-some fd s.room.clients (sym (is_watched fd) ∙ h) in
    (
      n,
      e,
      ((λ fd'. refl), refl, refl),
      λ fd'.
          broadcast_msg-told (chat_msg (find_id fd s.room.clients) (recv_buffer bytes)) fd s.room
            room fd'
          ∙ ap (λ t. told fd t (view s.room) fd')
              (chat_msg-recv_buffer (find_id fd s.room.clients) bytes
                ∙ ap (λ id. chat_text id (c_string (take 1023 bytes))) e),
    )
handle-Spec (hung_up fd) s (room, is_open, is_watched) h =
    let (n, e) = find_id-some fd s.room.clients (sym (is_watched fd) ∙ h) in
    (
      n,
      e,
      view-without fd s.room room (sym (is_watched fd) ∙ h),
      λ fd'.
          broadcast_msg-told (quit_msg (find_id fd s.room.clients)) fd s.room room fd'
          ∙ ap (λ t. told fd t (view s.room) fd')
              (quit_msg_lem (find_id fd s.room.clients) ∙ ap quit_text e),
    )
handle-Spec (recv_failed fd) s (room, is_open, is_watched) h =
    (view-without fd s.room room (sym (is_watched fd) ∙ h), λ fd'. refl)
