-- ===== src/Chat/Epoll/Program.antt =====
-- hw4/server_epoll.c: `main`, from `socket` to the calls of `epoll_wait`.
use file_system_homework.Base.{Bool, not, List, [], ◌∷◌, Option, some, none, if◌then◌else◌}
use file_system_homework.Chat.Setup.{Calls, Exit, ends_with, behind_sends, listening}
use file_system_homework.Chat.Epoll.{Event, Server, start, run}

-- The loop, one element for each `epoll_wait`: `none` is -1. `server_fd` and `epoll_fd` are open.
unfoldable pub wait_loop : List (Option (List Event)) → Server → Exit Server
wait_loop [] s = ends_with none 2 s
wait_loop (none ∷ rounds) s = ends_with (some 1) 2 s
wait_loop (some events ∷ rounds) s =
    let (s', sends) = run events s in behind_sends sends (wait_loop rounds s')

-- Whether `epoll_create1`, and `epoll_ctl` for the listening socket, succeed.
pub record EpollCalls : Type 0 where
  pub listener : Calls
  pub creates : Bool
  pub adds : Bool

unfoldable pub main : EpollCalls → List (Option (List Event)) → Exit Server
main c rounds = listening c.listener start (
    if not c.creates
    then ends_with (some 1) 1 start
    else if not c.adds
    then ends_with (some 1) 2 start
    else wait_loop rounds start)
