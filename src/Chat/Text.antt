-- ===== src/Chat/Text.antt =====
-- The texts of the servers: `snprintf` with "[Client %d]: %s" and "Client %d Disconnected.\n". A number is an
-- `int` that is -1 or not negative.
pub mod Whole
mod Tests
use file_system_homework.Base.{
  ℕ, zero, suc, ◌+◌, ◌-◌, ◌*◌, ◌/◌, ◌%◌, ◌^◌, ◌≤◌, ◌<◌, ◌≡◌, refl, arith, true, false, List, [],
  ◌∷◌, ◌++◌, Option, some, none, length, take, take_all, length-append, ◌==◌, c_string, read_into,
}
use file_system_homework.Base.Digits.{show_digits}

abbrev pub buffer_size : ℕ
buffer_size = 1024

-- An `int` below 2 ^ 31 has ten digits at most; `none` is -1.
unfoldable pub show_id : Option ℕ → List ℕ
show_id none = b'-' ∷ b'1' ∷ []
show_id (some n) = show_digits 10 n []

-- `snprintf` into `size` bytes keeps room for the final zero.
abbrev pub snprintf : ℕ → List ℕ → List ℕ
snprintf size text = take (size - 1) text

-- `memset(buffer, 0, BUFFER_SIZE)`, `recv` of at most BUFFER_SIZE - 1 bytes and `buffer[read_size] = '\0'`.
unfoldable pub recv_buffer : List ℕ → List ℕ
recv_buffer bytes = read_into buffer_size bytes

abbrev pub chat_text : Option ℕ → List ℕ → List ℕ
chat_text id text =
    (b'[' ∷ b'C' ∷ b'l' ∷ b'i' ∷ b'e' ∷ b'n' ∷ b't' ∷ b' ' ∷ [])
    ++ (show_id id ++ ((b']' ∷ b':' ∷ b' ' ∷ []) ++ text))

-- `snprintf(formatted_msg, sizeof(formatted_msg), "[Client %d]: %s", client_id, buffer)`
unfoldable pub chat_msg : Option ℕ → List ℕ → List ℕ
chat_msg id buffer = snprintf (buffer_size + 64) (chat_text id (c_string buffer))

abbrev pub quit_text : Option ℕ → List ℕ
quit_text id =
    (b'C' ∷ b'l' ∷ b'i' ∷ b'e' ∷ b'n' ∷ b't' ∷ b' ' ∷ [])
    ++ (show_id id
        ++ (b' ' ∷ b'D' ∷ b'i' ∷ b's' ∷ b'c' ∷ b'o' ∷ b'n' ∷ b'n' ∷ b'e' ∷ b'c' ∷ b't' ∷ b'e' ∷ b'd'
            ∷ b'.' ∷ 10 ∷ []))

-- `snprintf(client_quit_msg, sizeof(client_quit_msg), "Client %d Disconnected.\n", client_id)`
unfoldable pub quit_msg : Option ℕ → List ℕ
quit_msg id = snprintf buffer_size (quit_text id)
