-- ===== src/Chat/Conversation/Tests.antt =====
-- hw4: one client speaks, and the other gets the text in two pieces.
use file_system_homework.Base.{ℕ, true, List, [], ◌∷◌, Option, some, none}
use file_system_homework.Chat.Epoll.{Event, accepted, received}
use file_system_homework.Chat.Epoll.Program.{EpollCalls}

abbrev talk : List Event
talk = accepted 5 0 true ∷ accepted 6 0 true ∷ received 5 (b'h' ∷ b'i' ∷ []) ∷ []

abbrev calls : EpollCalls
calls = record {
  listener = record { socket = true; bind = true; listen = true };
  creates = true;
  adds = true;
}

abbrev pieces : List (Option (List ℕ))
pieces =
    some (b'[' ∷ b'C' ∷ b'l' ∷ b'i' ∷ [])
    ∷ none
    ∷ some (b'e' ∷ b'n' ∷ b't' ∷ b' ' ∷ b'1' ∷ b']' ∷ b':' ∷ b' ' ∷ b'h' ∷ b'i' ∷ [])
    ∷ []
