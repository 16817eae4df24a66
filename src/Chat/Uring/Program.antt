-- ===== src/Chat/Uring/Program.antt =====
-- hw4/server_io_uring.c: `main`, from `socket` to `io_uring_queue_exit`.
use file_system_homework.Base.{Bool, not, List, [], ◌∷◌, Option, some, none, if◌then◌else◌}
use file_system_homework.Chat.Setup.{Calls, Exit, ends_with, behind_sends, listening}
use file_system_homework.Chat.Clients.{empty_room}
use file_system_homework.Chat.Uring.{Completion, Server, start, handle}

-- The loop, one element for each `io_uring_wait_cqe`: `none` is negative, and leaves the loop. `server_fd` and the ring are
-- open.
unfoldable pub wait_loop : List (Option Completion) → Server → Exit Server
wait_loop [] s = ends_with none 2 s
wait_loop (none ∷ rounds) s = ends_with (some 0) 0 s
wait_loop (some c ∷ rounds) s =
    let (s', sends) = handle c s in behind_sends sends (wait_loop rounds s')

-- Before `add_accept_request`.
abbrev pub idle : Server
idle = record { room = empty_room; open_fds = []; accepts = 0; recvs = [] }

-- Whether `io_uring_queue_init` succeeds.
pub record UringCalls : Type 0 where
  pub listener : Calls
  pub ring : Bool

unfoldable pub main : UringCalls → List (Option Completion) → Exit Server
main c rounds =
    listening c.listener idle
      (if not c.ring then ends_with (some 1) 1 idle else wait_loop rounds start)
