-- ===== src/Chat/Clients.antt =====
-- The table of clients of hw4/server_epoll.c and hw4/server_io_uring.c: `clients` and `total_connections`, the
-- scans over the table, and `broadcast_msg`. Both files hold the same text.
pub mod Counts
pub mod Adding
pub mod Leaving
pub mod View
mod Tests
use file_system_homework.Base.{
  ℕ, zero, suc, ◌+◌, ◌≡◌, Bool, true, false, not, ◌&&◌, List, [], ◌∷◌, Option, some, none,
  replicate, ◌==◌, if◌then◌else◌, c_string,
}

abbrev pub max_clients : ℕ
max_clients = 100

-- `ClientInfo`.
pub record Client : Type 0 where
  pub fd : ℕ
  pub id : ℕ
  pub addr : ℕ
  pub is_active : Bool

pub record Room : Type 0 where
  pub clients : List Client
  pub total_connections : ℕ

-- A call of `send`.
pub record Send : Type 0 where
  pub fd : ℕ
  pub text : List ℕ

-- Before the loop: static memory is zero.
abbrev pub empty_client : Client
empty_client = record { fd = 0; id = 0; addr = 0; is_active = false }

unfoldable pub empty_room : Room
empty_room = record { clients = replicate max_clients empty_client; total_connections = 0 }

-- The scan of `broadcast_msg`: the descriptors that it sends to, in order.
unfoldable pub recipients : ℕ → List Client → List ℕ
recipients sender [] = []
recipients sender (c ∷ cs) =
    let rest = recipients sender cs in
    if c.is_active && not (c.fd == sender) then c.fd ∷ rest else rest

abbrev pub send_all : List ℕ → List ℕ → List Send
send_all text [] = []
send_all text (fd ∷ fds) = record { fd = fd; text = text } ∷ send_all text fds

unfoldable pub broadcast_msg : List ℕ → ℕ → List Client → List Send
broadcast_msg msg sender cs = send_all (c_string msg) (recipients sender cs)

abbrev pub behind : Client → Option (List Client) → Option (List Client)
behind c none = none
behind c (some cs) = some (c ∷ cs)

-- The scan for a free slot.
unfoldable pub take_slot : Client → List Client → Option (List Client)
take_slot new [] = none
take_slot new (c ∷ cs) = if c.is_active then behind c (take_slot new cs) else some (new ∷ cs)

abbrev pub with_total : ℕ → Option (List Client) → Option Room
with_total n none = none
with_total n (some cs) = some (record { clients = cs; total_connections = n })

-- `none` if there is no free slot: `added` stays 0.
unfoldable pub add_client : (fd addr : ℕ) → Room → Option Room
add_client fd addr s = with_total (suc s.total_connections) (
    take_slot (record { fd = fd; id = suc s.total_connections; addr = addr; is_active = true })
      s.clients)

-- The scan for the number of a client; `none` is -1.
unfoldable pub find_id : ℕ → List Client → Option ℕ
find_id fd [] = none
find_id fd (c ∷ cs) = if c.is_active && (c.fd == fd) then some c.id else find_id fd cs

-- The scan that gives up the slot of a client.
unfoldable pub deactivate : ℕ → List Client → List Client
deactivate fd [] = []
deactivate fd (c ∷ cs) =
    if c.is_active && (c.fd == fd)
    then record c { is_active = false } ∷ cs
    else c ∷ deactivate fd cs
