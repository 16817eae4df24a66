-- ===== src/Packet/Receiver.antt =====
-- hw5/Receiver.c: prints the text of each datagram. A `printf` of the buffer with "%s" stops at the
-- first zero byte.
mod Tests
use file_system_homework.Base.{
  ℕ, zero, suc, ◌+◌, ◌-◌, ◌≤◌, ◌<◌, ◌≡◌, ◌≢◌, ◌∙◌, sym, ap, refl, arith, Bool, true, false, List,
  [], ◌∷◌, ◌++◌, Option, some, none, length, take, set, replicate, overwrite, ◌==◌, if◌then◌else◌,
  length-take, overwrite_front, drop-replicate, set-append_front, length-replicate, c_string,
  read_into, c_string-read_into,
}
use file_system_homework.Packet.Bytes.{htons}

abbrev pub buffer_size : ℕ
buffer_size = 4096

-- `memset`, `recvfrom` of at most BUFFER_SIZE - 1 bytes, and `buffer[bytes] = '\0'`.
pub fill_buffer : List ℕ → List ℕ
fill_buffer bytes = read_into buffer_size bytes

-- The source port as it lies in memory is in network order.
pub data Received : Type 0 where
  failed : Received
  datagram : (bytes : List ℕ) (source_ip source_port : ℕ) → Received

pub record Line : Type 0 where
  pub message : List ℕ
  pub source_ip : ℕ
  pub source_port : ℕ

-- The lines printed, and how often the descriptor was closed; `none` while the loop waits.
pub record Trace : Type 0 where
  pub lines : List Line
  pub closes : Option ℕ

abbrev line_first : Line → Trace → Trace
line_first l t = record t { lines = l ∷ t.lines }

pub run : List Received → Trace
run [] = record { lines = []; closes = none }
run (failed ∷ rest) = record { lines = []; closes = some 2 }
run (datagram bytes ip port ∷ rest) =
    line_first
      (record { message = c_string (fill_buffer bytes); source_ip = ip; source_port = htons port })
      (run rest)

-- The descriptors that `main` opens: none if `socket` or `bind` fails, before any datagram.
pub main : Bool → Bool → List Received → Option Trace
main socket bind events = if socket then (if bind then some (run events) else none) else none

pub fill_buffer-c_string :
    (bytes : List ℕ)
    → (c_string (fill_buffer bytes) ≡ c_string (take 4095 bytes))
      × (length (take (buffer_size - 1) bytes) < buffer_size)
unfolding fill_buffer
fill_buffer-c_string bytes =
    (c_string-read_into 4096 bytes (omega arith), omega (arith, length-take 4095 bytes))
