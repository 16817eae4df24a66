-- ===== src/Chat/Uring/Tests.antt =====
-- hw4: two clients come, one speaks and leaves.
use file_system_homework.Base.{◌≡◌, refl, true, Option, some, none, List, [], ◌∷◌, map}
use file_system_homework.Chat.Clients.{
  add_client, take_slot, recipients, broadcast_msg, deactivate, empty_room,
}
use file_system_homework.Chat.Descriptors.{remove}
use file_system_homework.Chat.Uring.{
  Completion, accepted, received, hung_up, start, handle, loop, add_accept_request,
  add_recv_request,
}
use file_system_homework.Chat.Uring.Served.{IsServed, start-IsServed}
use file_system_homework.Chat.Uring.Runs.{Happen, loop-IsServed}
use file_system_homework.Chat.Uring.Program.{UringCalls, main}
use file_system_homework.Chat.Uring.Whole.{happened, Serves, main-Serves}

abbrev evening : List Completion
evening = accepted 5 0 ∷ accepted 6 0 ∷ received 5 (b'h' ∷ b'i' ∷ []) ∷ hung_up 5 ∷ []

evening-Happen : Happen evening start
unfolding handle add_client take_slot empty_room deactivate remove start add_accept_request
    add_recv_request
evening-Happen = ((refl, refl), ((refl, refl), (refl, (refl, tt))))

evening_sends : map (λ x. x.fd) (loop evening start).1 ≡ 6 ∷ 6 ∷ []
unfolding loop handle add_client take_slot empty_room deactivate recipients broadcast_msg start
    add_accept_request add_recv_request
evening_sends = refl

loop-IsServed_example : IsServed (loop evening start).0
loop-IsServed_example = loop-IsServed evening start start-IsServed evening-Happen

abbrev calls : UringCalls
calls = record { listener = record { socket = true; bind = true; listen = true }; ring = true }

-- The ring fails after two clients came.
abbrev rounds : List (Option Completion)
rounds = some (accepted 5 0) ∷ some (accepted 6 0) ∷ none ∷ some (hung_up 5) ∷ []

rounds-Happen : Happen (happened rounds) start
unfolding handle add_client take_slot empty_room deactivate remove start add_accept_request
    add_recv_request
rounds-Happen = ((refl, refl), ((refl, refl), tt))

main-Serves_example :
    Serves (accepted 5 0 ∷ accepted 6 0 ∷ []) (main calls rounds)
    × ((main calls rounds).code ≡ some 0)
    × (true ≡ true → (main calls rounds).own_fds ≡ 0)
main-Serves_example = main-Serves calls rounds rounds-Happen
