-- ===== src/Chat/Agreement/Tests.antt =====
-- hw4: the same short evening in both servers.
use file_system_homework.Base.{refl, true, List, [], ◌∷◌, Option, some}
use file_system_homework.Chat.Spec.{Same, Hears}
use file_system_homework.Chat.Clients.{add_client, take_slot, deactivate, empty_room}
use file_system_homework.Chat.Clients.View.{view, heard_from}
use file_system_homework.Chat.Descriptors.{remove}
use file_system_homework.Chat.Epoll
use file_system_homework.Chat.Epoll.Program.{EpollCalls}
use file_system_homework.Chat.Uring
use file_system_homework.Chat.Uring.Program.{UringCalls}
use file_system_homework.Chat.Setup.{Calls}
use file_system_homework.Chat.Agreement.{servers_agree}

abbrev listener : Calls
listener = record { socket = true; bind = true; listen = true }

abbrev epoll_calls : EpollCalls
epoll_calls = record { listener = listener; creates = true; adds = true }

abbrev uring_calls : UringCalls
uring_calls = record { listener = listener; ring = true }

-- Two clients come, one speaks and leaves.
abbrev events : List (Option (List Epoll.Event))
events =
    some (Epoll.accepted 5 0 true ∷ [])
    ∷ some (Epoll.accepted 6 0 true ∷ Epoll.received 5 (b'h' ∷ b'i' ∷ []) ∷ [])
    ∷ some (Epoll.hung_up 5 ∷ [])
    ∷ []

abbrev completions : List (Option Uring.Completion)
completions =
    some (Uring.accepted 5 0)
    ∷ some (Uring.accepted 6 0)
    ∷ some (Uring.received 5 (b'h' ∷ b'i' ∷ []))
    ∷ some (Uring.hung_up 5)
    ∷ []

events-Happen : Epoll.Reach.Happen (Epoll.Whole.happened events) Epoll.start
unfolding Epoll.handle add_client take_slot empty_room deactivate remove
events-Happen = ((refl, refl), ((refl, refl), (refl, (refl, tt))))

completions-Happen : Uring.Runs.Happen (Uring.Whole.happened completions) Uring.start
unfolding Uring.handle add_client take_slot empty_room deactivate remove Uring.start
    Uring.add_accept_request Uring.add_recv_request
completions-Happen = ((refl, refl), ((refl, refl), (refl, (refl, tt))))

servers_agree_example :
    let r = Epoll.Program.main epoll_calls events in
    let r' = Uring.Program.main uring_calls completions in
    Same (view r.server.room) (view r'.server.room)
    × Hears (heard_from r.sends) (heard_from r'.sends)
servers_agree_example =
    servers_agree epoll_calls uring_calls events completions refl refl events-Happen
      completions-Happen refl
