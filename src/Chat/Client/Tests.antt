-- ===== src/Chat/Client/Tests.antt =====
-- hw4/client.c: a short talk.
use file_system_homework.Base.{
  ℕ, ◌≡◌, refl, arith, true, List, [], ◌∷◌, ◌++◌, Option, some, none, c_string, read_into,
  overwrite,
}
use file_system_homework.Chat.Client.{line_length, typed, send_loop, receive_loop, Calls}
use file_system_homework.Chat.Client.Receiving.{AllFit, receive_loop-texts}

abbrev hi : List ℕ
hi = b'h' ∷ b'i' ∷ 10 ∷ []

abbrev yes_line : List ℕ
yes_line = b'y' ∷ b'e' ∷ b's' ∷ 10 ∷ []

abbrev sends : List (Option ℕ)
sends = some 1024 ∷ some 1024 ∷ some 1024 ∷ []

abbrev good : Calls
good = record { socket = some 3; parses = true; connects = true; makes_thread = true }

-- A `send` that takes one byte of a line, and one that fails.
short_send :
    send_loop (some 1 ∷ none ∷ []) (hi ++ (yes_line ++ hi)) []
    ≡ record { stream = b'h' ∷ []; ended = true }
unfolding send_loop line_length typed c_string read_into overwrite
short_send = refl

abbrev received : List (Option (List ℕ))
received = some hi ∷ none ∷ some yes_line ∷ []

received-AllFit : AllFit received
unfolding c_string
received-AllFit = ((refl, omega arith, omega arith), ((refl, omega arith, omega arith), tt))

receive_loop-texts_example :
    receive_loop (received ++ (some [] ∷ some hi ∷ [])) []
    ≡ record { texts = [] ++ (some hi ∷ some yes_line ∷ []); ended = true }
receive_loop-texts_example = receive_loop-texts received (some hi ∷ []) [] received-AllFit
