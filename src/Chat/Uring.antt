-- ===== src/Chat/Uring.antt =====
-- hw4/server_io_uring.c: the loop over the completions of the ring. The outcome of each system call is in the completion.
-- At most 101 requests wait, and each is submitted at once, so that `io_uring_get_sqe` finds one of the 1024 entries.
pub mod Served
pub mod Runs
pub mod Program
pub mod Whole
mod Tests
use file_system_homework.Base.{
  ℕ, suc, ◌+◌, ◌-◌, Bool, true, false, List, [], ◌∷◌, ◌++◌, Option, some, none, if◌then◌else◌,
}
use file_system_homework.Chat.Text.{chat_msg, quit_msg, recv_buffer}
use file_system_homework.Chat.Clients.{
  Room, Send, empty_room, broadcast_msg, add_client, find_id, deactivate,
}
use file_system_homework.Chat.Descriptors.{remove}

-- A completion of an `EVENT_ACCEPT` or of an `EVENT_RECV` request; `cqe->res` is a descriptor, a count of bytes, or
-- negative.
pub data Completion : Type 0 where
  accepted : (fd addr : ℕ) → Completion
  accept_failed : Completion
  received : (fd : ℕ) (bytes : List ℕ) → Completion
  hung_up : (fd : ℕ) → Completion
  recv_failed : (fd : ℕ) → Completion

-- The table, the descriptors of clients that are open, how many `EVENT_ACCEPT` requests the ring holds, and the
-- descriptors of its `EVENT_RECV` requests.
pub record Server : Type 0 where
  pub room : Room
  pub open_fds : List ℕ
  pub accepts : ℕ
  pub recvs : List ℕ

unfoldable pub add_accept_request : Server → Server
add_accept_request s = record s { accepts = suc s.accepts }

unfoldable pub add_recv_request : ℕ → Server → Server
add_recv_request fd s = record s { recvs = fd ∷ s.recvs }

-- `io_uring_cqe_seen`: the request is done.
abbrev pub seen_accept : Server → Server
seen_accept s = record s { accepts = s.accepts - 1 }

abbrev pub seen_recv : ℕ → Server → Server
seen_recv fd s = record s { recvs = remove fd s.recvs }

-- Before the loop.
unfoldable pub start : Server
start = add_accept_request (record { room = empty_room; open_fds = []; accepts = 0; recvs = [] })

abbrev pub welcome : (fd : ℕ) → Server → Option Room → Server
welcome fd s none = record s { open_fds = remove fd s.open_fds }
welcome fd s (some room) = add_recv_request fd (record s { room = room })

-- From `close(client_fd)` on.
abbrev pub part : ℕ → Server → Server
part fd s = record s {
  room = record {
    clients = deactivate fd s.room.clients;
    total_connections = s.room.total_connections;
  };
  open_fds = remove fd s.open_fds;
}

-- One round of the loop.
unfoldable pub handle : Completion → Server → Server × List Send
handle (accepted fd addr) s =
    let s' = seen_accept (record s { open_fds = fd ∷ s.open_fds }) in
    (add_accept_request (welcome fd s' (add_client fd addr s.room)), [])
handle accept_failed s = (add_accept_request (seen_accept s), [])
handle (received fd bytes) s = (
  add_recv_request fd (seen_recv fd s),
  broadcast_msg (chat_msg (find_id fd s.room.clients) (recv_buffer bytes)) fd s.room.clients,
)
handle (hung_up fd) s = (
  part fd (seen_recv fd s),
  broadcast_msg (quit_msg (find_id fd s.room.clients)) fd s.room.clients,
)
handle (recv_failed fd) s = (part fd (seen_recv fd s), [])

pub loop : List Completion → Server → Server × List Send
loop [] s = (s, [])
loop (c ∷ cs) s =
    let (s', sends) = handle c s in let (s'', more) = loop cs s' in (s'', sends ++ more)
