-- ===== src/Chat/Client.antt =====
-- hw4/client.c: what is typed goes to the server, and what the server sends is shown. The two loops share no state but the
-- socket. What the calls give is an argument.
pub mod Sending
pub mod Receiving
mod Whole
mod Tests
use file_system_homework.Base.{
  ℕ, zero, suc, ◌-◌, Bool, true, false, not, ◌&&◌, List, [], ◌∷◌, ◌++◌, Option, some, none, length,
  take, drop, replicate, overwrite, ◌==◌, ltb, if◌then◌else◌, c_string, read_into,
}

abbrev pub buffer_size : ℕ
buffer_size = 1024

-- How many bytes `fgets` takes from `stdin`, if there is room for `room` of them: up to the first newline, with it.
pub line_length : (room : ℕ) → List ℕ → ℕ
line_length zero stdin = 0
line_length (suc room) [] = 0
line_length (suc room) (c ∷ stdin) =
    let more = line_length room stdin in if c == 10 then 1 else suc more

-- `strncmp(msg, prefix, strlen(prefix)) == 0`
abbrev pub starts_with : (prefix msg : List ℕ) → Bool
starts_with [] msg = true
starts_with (p ∷ prefix) [] = false
starts_with (p ∷ prefix) (c ∷ msg) = p == c && starts_with prefix msg

abbrev pub exit_word : List ℕ
exit_word = b'e' ∷ b'x' ∷ b'i' ∷ b't' ∷ []

-- `memset(msg, 0, BUFFER_SIZE)` and `fgets`, as the text that `strncmp` and `strlen` find.
pub typed : List ℕ → List ℕ
typed stdin = c_string (read_into buffer_size (take (line_length (buffer_size - 1) stdin) stdin))

-- What has gone to the server; whether the loop has ended.
pub record Sent : Type 0 where
  pub stream : List ℕ
  pub ended : Bool

-- The loop of `main`, one element for each round: `send` takes at most `n` bytes for `some n`, and `none` is -1. `fgets` gives
-- NULL at the end of `stdin`.
pub send_loop : List (Option ℕ) → (stdin stream : List ℕ) → Sent
send_loop [] stdin stream = record { stream = stream; ended = false }
send_loop (r ∷ rs) stdin stream = elim (line_length (buffer_size - 1) stdin) [
  | zero ↦ send_loop rs stdin stream
  | suc n ↦ elim (starts_with exit_word (typed stdin)) [
    | true ↦ record { stream = stream; ended = true }
    | false ↦ elim r [
      | none ↦ record { stream = stream; ended = true }
      | some m ↦ send_loop rs (drop (suc n) stdin) (stream ++ take m (typed stdin))
    ]
  ]
]

-- What `printf("%s", msg)` shows of the bytes that `recv` put into `msg`; `none` if there is no zero byte in `msg`, where
-- `printf` reads on behind it.
pub shown : List ℕ → Option (List ℕ)
shown bytes =
    let text = c_string (overwrite 0 (take buffer_size bytes) (replicate buffer_size 0)) in
    if ltb (length text) buffer_size then some text else none

-- The messages that were shown; whether the server hung up, which ends the program.
pub record Received : Type 0 where
  pub texts : List (Option (List ℕ))
  pub ended : Bool

-- `msg_recv_handler`, one element for each `recv`: `none` is -1, and no bytes mean that the server hung up.
pub receive_loop : List (Option (List ℕ)) → (texts : List (Option (List ℕ))) → Received
receive_loop [] texts = record { texts = texts; ended = false }
receive_loop (none ∷ rs) texts = receive_loop rs texts
receive_loop (some [] ∷ rs) texts = record { texts = texts; ended = true }
receive_loop (some (c ∷ bytes) ∷ rs) texts = receive_loop rs (texts ++ (shown (c ∷ bytes) ∷ []))

-- `socket` gives a descriptor, or -1 for `none`; whether the other calls succeed.
pub record Calls : Type 0 where
  pub socket : Option ℕ
  pub parses : Bool
  pub connects : Bool
  pub makes_thread : Bool

-- The exit code, once `main` has ended; what went to the server; whether the socket is still open.
pub record Exit : Type 0 where
  pub code : Option ℕ
  pub stream : List ℕ
  pub socket_open : Bool

abbrev fail_with : Bool → Exit
fail_with socket_open = record { code = some 1; stream = []; socket_open = socket_open }

-- From `inet_pton` on. With the descriptor -1 `connect` fails.
abbrev connected : Calls → Bool → List (Option ℕ) → List ℕ → Exit
connected c socket_open rs stdin =
    if not c.parses
    then fail_with socket_open
    else if not (socket_open && c.connects)
    then fail_with socket_open
    else if not c.makes_thread
    then fail_with socket_open
    else (let s = send_loop rs stdin [] in
        if s.ended
        then record { code = some 0; stream = s.stream; socket_open = false }
        else record { code = none; stream = s.stream; socket_open = true })

pub main : Calls → List (Option ℕ) → List ℕ → Exit
main c rs stdin = elim c.socket [
  | none ↦ connected c false rs stdin
  | some zero ↦ fail_with true
  | some (suc n) ↦ connected c true rs stdin
]
