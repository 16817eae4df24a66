-- ===== src/Chat/Epoll/Tests.antt =====
-- hw4: two clients come, one speaks and leaves.
use file_system_homework.Base.{◌≡◌, refl, arith, true, false, List, [], ◌∷◌, map}
use file_system_homework.Chat.Epoll.Program.{EpollCalls}
use file_system_homework.Chat.Clients.{
  add_client, take_slot, recipients, broadcast_msg, deactivate, empty_room,
}
use file_system_homework.Chat.Clients.Counts.{count, count_fd}
use file_system_homework.Chat.Clients.Adding.{count_active}
use file_system_homework.Chat.Epoll.{Event, accepted, received, hung_up, start, handle, run}
use file_system_homework.Chat.Epoll.Served.{start-IsServed}
use file_system_homework.Chat.Epoll.Reach.{accepted-unregistered}

abbrev evening : List Event
evening = accepted 5 0 true ∷ accepted 6 0 true ∷ received 5 (b'h' ∷ b'i' ∷ []) ∷ hung_up 5 ∷ []

evening_sends : map (λ x. x.fd) (run evening start).1 ≡ 6 ∷ 6 ∷ []
unfolding run handle add_client take_slot empty_room deactivate recipients broadcast_msg
evening_sends = refl

abbrev calls : EpollCalls
calls = record {
  listener = record { socket = true; bind = true; listen = true };
  creates = true;
  adds = true;
}

accepted-unregistered_example :
    let s' = (handle (accepted 5 0 false) start).0 in
    (count 5 s'.open_fds ≡ 0) × (count_fd 5 s'.room.clients ≡ 1)
unfolding count_active empty_room
accepted-unregistered_example = accepted-unregistered 5 0 start start-IsServed refl (omega arith)
