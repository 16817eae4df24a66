-- ===== src/Chat/Conversation.antt =====
-- hw4: a client that listens to the epoll server. TCP brings the bytes that the server sends to a descriptor in order, cut into
-- pieces anywhere.
mod Tests
use file_system_homework.Base.{ℕ, ◌∙◌, refl, ap, List, Option, none, ◌&&◌}
use file_system_homework.Chat.Clients.View.{heard_from}
use file_system_homework.Chat.Epoll.{Event}
use file_system_homework.Chat.Epoll.Program.{EpollCalls, main}
use file_system_homework.Chat.Client.{Received}
use file_system_homework.Chat.Client.Sending.{concat}

-- What the server has sent to the descriptor, as one stream.
abbrev pub stream_to : ℕ → EpollCalls → List (Option (List Event)) → List ℕ
stream_to fd c rounds = concat (heard_from (main c rounds).sends fd)
