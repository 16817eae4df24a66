-- ===== src/Packet/Frames.antt =====
-- `recvfrom` into the one buffer that the programs of hw5 keep.
use file_system_homework.Base.{
  ℕ, ◌+◌, ◌≤◌, ◌<◌, ◌≡◌, ◌∙◌, sym, ap, arith, List, length, take, overwrite, take_all,
  length-overwrite, get_or-overwrite_in, length-take,
}
use file_system_homework.Packet.Bytes.{byte_at, IsBytes, IsBytes-overwrite, IsBytes-slice}

abbrev pub buffer_size : ℕ
buffer_size = 65536

-- A frame is cut to the buffer, and what lies behind it stays.
unfoldable pub receive : List ℕ → List ℕ → List ℕ
receive bytes buffer = overwrite 0 (take buffer_size bytes) buffer

-- The return value.
abbrev pub received : List ℕ → ℕ
received bytes = length (take buffer_size bytes)

abbrev pub IsBuffer : List ℕ → Type 0
IsBuffer buffer = IsBytes buffer × (length buffer ≡ buffer_size)

pub receive-IsBuffer :
    (bytes buffer : List ℕ) → IsBytes bytes → IsBuffer buffer → IsBuffer (receive bytes buffer)
unfolding receive
receive-IsBuffer bytes buffer h (b, l) = (
  IsBytes-overwrite 0 (take buffer_size bytes) buffer (IsBytes-slice 0 buffer_size bytes h) b,
  length-overwrite 0 (take buffer_size bytes) buffer ∙ l,
)

pub length-receive : (bytes buffer : List ℕ) → length (receive bytes buffer) ≡ length buffer
unfolding receive
length-receive bytes buffer = length-overwrite 0 (take buffer_size bytes) buffer

pub received_whole : (bytes : List ℕ) → length bytes ≤ buffer_size → received bytes ≡ length bytes
received_whole bytes h = omega (arith, length-take buffer_size bytes)

pub byte_at-receive :
    (bytes buffer : List ℕ) (j : ℕ)
    → length bytes ≤ buffer_size
    → length buffer ≡ buffer_size
    → j < length bytes
    → byte_at (receive bytes buffer) j ≡ byte_at bytes j
unfolding receive
byte_at-receive bytes buffer j h l inside =
    let e : 0 + j ≡ j = omega arith in
    let whole : take buffer_size bytes ≡ bytes = take_all buffer_size bytes h in
    rw whole (
      ap (byte_at (overwrite 0 bytes buffer)) (sym e)
      ∙ get_or-overwrite_in 0 bytes buffer j 0 inside (omega arith))
