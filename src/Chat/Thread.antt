-- ===== src/Chat/Thread.antt =====
-- hw4/server_thread.c: the main thread accepts, and each client has a thread of its own. A step is what one thread does
-- between two points where another may run; the calls with `client_mutex` held are one step.
mod Served
mod Numbers
mod Heard
mod Tests
use file_system_homework.Base.{
  ℕ, suc, ◌+◌, ◌≡◌, Bool, true, false, List, [], ◌∷◌, Option, some, none, get_elem?, set, ◌==◌,
  if◌then◌else◌,
}
use file_system_homework.Chat.Text.{chat_msg, quit_msg, recv_buffer}
use file_system_homework.Chat.Clients.{
  Client, Room, Send, empty_room, broadcast_msg, add_client, deactivate,
}
use file_system_homework.Chat.Clients.Counts.{weight}

-- Where a `client_handler` is: before its scan for `client_id`, in its loop, behind it, before `close`, or at its end.
pub data Phase : Type 0 where
  starting : Phase
  serving : (client_id : Option ℕ) → Phase
  leaving : Phase
  closing : Phase
  ended : Phase

pub record Thread : Type 0 where
  pub fd : ℕ
  pub phase : Phase

pub record Server : Type 0 where
  pub room : Room
  pub threads : List Thread

abbrev pub start : Server
start = record { room = empty_room; threads = [] }

abbrev later_or : Option ℕ → Option ℕ → Option ℕ
later_or none n = n
later_or (some m) n = some m

-- The scan of `client_handler` for its number: it goes on to the last slot, and it does not ask for `is_active`. `none` is a
-- variable that was not set.
pub lookup_id : ℕ → List Client → Option ℕ
lookup_id fd [] = none
lookup_id fd (c ∷ cs) = later_or (lookup_id fd cs) (if c.fd == fd then some c.id else none)

-- The main thread, after `accept`.
abbrev pub welcome : ℕ → Server → Option Room → Server
welcome fd s none = s
welcome fd s (some room) = record {
  room = room;
  threads = record { fd = fd; phase = starting } ∷ s.threads;
}

pub accept : (fd addr : ℕ) → Server → Server
accept fd addr s = welcome fd s (add_client fd addr s.room)

abbrev pub move : ℕ → Thread → Phase → Server → Server
move i t p s = record s { threads = set s.threads i (record t { phase = p }) }

pub look_up : ℕ → Thread → Server → Server
look_up i t s = move i t (serving (lookup_id t.fd s.room.clients)) s

-- A round of the loop of `client_handler`: what is sent.
pub speak : Thread → Option ℕ → List ℕ → Server → List Send
speak t id bytes s = broadcast_msg (chat_msg id (recv_buffer bytes)) t.fd s.room.clients

-- The loop ends; `closed` if `recv` gave 0.
pub hang_up : ℕ → Thread → Option ℕ → Bool → Server → Server × List Send
hang_up i t id closed s =
    (move i t leaving s, if closed then broadcast_msg (quit_msg id) t.fd s.room.clients else [])

pub leave : ℕ → Thread → Server → Server
leave i t s = move i t closing (record s {
  room = record {
    clients = deactivate t.fd s.room.clients;
    total_connections = s.room.total_connections;
  };
})

abbrev pub close_fd : ℕ → Thread → Server → Server
close_fd i t s = move i t ended s

-- Whether a thread has a descriptor open, and whether its client is in the table.
abbrev pub is_open : ℕ → Thread → ℕ
is_open fd t = elim t.phase [ ended ↦ 0 | _ ↦ weight (t.fd == fd) ]

abbrev pub is_in_table : ℕ → Thread → ℕ
is_in_table fd t = elim t.phase [ ended ↦ 0 | closing ↦ 0 | _ ↦ weight (t.fd == fd) ]

pub total : (Thread → ℕ) → List Thread → ℕ
total f [] = 0
total f (t ∷ ts) = f t + total f ts

-- The steps of the threads, in any order. `accept` gives a descriptor that is not open.
pub data Step (s : Server) : Server → List Send → Type 0 where
  accepts : (fd addr : ℕ) → total (is_open fd) s.threads ≡ 0 → Step s (accept fd addr s) []
  looks_up :
      (i : ℕ) (t : Thread)
      → get_elem? s.threads i ≡ some t
      → t.phase ≡ starting
      → Step s (look_up i t s) []
  speaks :
      (i : ℕ) (t : Thread) (id : Option ℕ) (bytes : List ℕ)
      → get_elem? s.threads i ≡ some t
      → t.phase ≡ serving id
      → Step s s (speak t id bytes s)
  hangs_up :
      (i : ℕ) (t : Thread) (id : Option ℕ) (closed : Bool)
      → get_elem? s.threads i ≡ some t
      → t.phase ≡ serving id
      → Step s (hang_up i t id closed s).0 (hang_up i t id closed s).1
  leaves :
      (i : ℕ) (t : Thread)
      → get_elem? s.threads i ≡ some t
      → t.phase ≡ leaving
      → Step s (leave i t s) []
  closes :
      (i : ℕ) (t : Thread)
      → get_elem? s.threads i ≡ some t
      → t.phase ≡ closing
      → Step s (close_fd i t s) []

pub data Reach : Server → Type 0 where
  starts : Reach start
  later : {s s' : Server} (sends : List Send) → Reach s → Step s s' sends → Reach s'
