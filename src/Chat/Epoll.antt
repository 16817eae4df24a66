-- ===== src/Chat/Epoll.antt =====
-- hw4/server_epoll.c: the loop over the events of `epoll_wait`. The outcome of each system call is in the event.
pub mod Served
pub mod Reach
pub mod Program
pub mod Whole
mod Tests
use file_system_homework.Base.{
  ℕ, Bool, true, false, List, [], ◌∷◌, ◌++◌, Option, some, none, if◌then◌else◌,
}
use file_system_homework.Chat.Text.{chat_msg, quit_msg, recv_buffer}
use file_system_homework.Chat.Clients.{
  Room, Send, empty_room, broadcast_msg, add_client, find_id, deactivate,
}
use file_system_homework.Chat.Descriptors.{remove}

-- An event at the listening socket is `accepted`, with the outcome of `epoll_ctl(EPOLL_CTL_ADD)`, or
-- `accept_failed`. The others are events at a client: `recv` gave bytes, 0 or less.
pub data Event : Type 0 where
  accepted : (fd addr : ℕ) (registered : Bool) → Event
  accept_failed : Event
  received : (fd : ℕ) (bytes : List ℕ) → Event
  hung_up : (fd : ℕ) → Event
  recv_failed : (fd : ℕ) → Event

-- The table, and the descriptors of clients that are open and that epoll watches.
pub record Server : Type 0 where
  pub room : Room
  pub open_fds : List ℕ
  pub watched : List ℕ

abbrev pub start : Server
start = record { room = empty_room; open_fds = []; watched = [] }

-- `epoll_ctl(EPOLL_CTL_ADD)`, and `close` if it fails. The slot in the table stays in use.
abbrev pub register : ℕ → Bool → Server → Server
register fd true s = record s { watched = fd ∷ s.watched }
register fd false s = record s { open_fds = remove fd s.open_fds }

abbrev pub welcome : (fd : ℕ) → Bool → Server → Option Room → Server
welcome fd registered s none = record s { open_fds = remove fd s.open_fds }
welcome fd registered s (some room) = register fd registered (record s { room = room })

-- From `epoll_ctl(EPOLL_CTL_DEL)` on.
abbrev pub part : ℕ → Server → Server
part fd s = record {
  room = record {
    clients = deactivate fd s.room.clients;
    total_connections = s.room.total_connections;
  };
  open_fds = remove fd s.open_fds;
  watched = remove fd s.watched;
}

-- One round of the loop over the events.
unfoldable pub handle : Event → Server → Server × List Send
handle (accepted fd addr registered) s = (
  welcome fd registered (record s { open_fds = fd ∷ s.open_fds }) (add_client fd addr s.room),
  [],
)
handle accept_failed s = (s, [])
handle (received fd bytes) s =
    (s, broadcast_msg (chat_msg (find_id fd s.room.clients) (recv_buffer bytes)) fd s.room.clients)
handle (hung_up fd) s =
    (part fd s, broadcast_msg (quit_msg (find_id fd s.room.clients)) fd s.room.clients)
handle (recv_failed fd) s = (part fd s, [])

-- All events of a call of `epoll_wait`, and of the calls behind it.
unfoldable pub run : List Event → Server → Server × List Send
run [] s = (s, [])
run (e ∷ es) s = let (s', sends) = handle e s in let (s'', more) = run es s' in (s'', sends ++ more)
