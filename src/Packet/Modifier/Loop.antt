-- ===== src/Packet/Modifier/Loop.antt =====
-- The `while(1)` of hw5/HW5_1_5.c over what `recvfrom` returns, with one buffer for all passes.
use file_system_homework.Base.{ℕ, ◌≤◌, ◌≡◌, Bool, true, false, List, [], ◌∷◌, some, none, slice}
use file_system_homework.Packet.Bytes.{IsBytes}
use file_system_homework.Packet.Frames.{receive, received}
use file_system_homework.Packet.Checksum.{checksum}
use file_system_homework.Packet.Modifier.{
  IpPart, Segment, Sent, accept_ip, accept_segment, transport_checksum, process,
}

-- What `recvfrom` returns: an error, or a frame, which may be one that this host sent
-- (`PACKET_OUTGOING`).
pub data Received : Type 0 where
  failed : Received
  frame : (outgoing : Bool) (bytes : List ℕ) → Received

-- `break`, or blocked in `recvfrom`.
pub data Ending : Type 0 where
  stopped waiting : Ending

pub record Trace : Type 0 where
  pub sent : List Sent
  pub ending : Ending

abbrev send_first : Sent → Trace → Trace
send_first s t = record t { sent = s ∷ t.sent }

unfoldable pub run : ℕ → List ℕ → List Received → Trace
run target_port buffer [] = record { sent = []; ending = waiting }
run target_port buffer (failed ∷ rest) = record { sent = []; ending = stopped }
run target_port buffer (frame true bytes ∷ rest) = run target_port (receive bytes buffer) rest
run target_port buffer (frame false bytes ∷ rest) =
    elim (process target_port (received bytes) (receive bytes buffer)) [
      | none ↦ run target_port (receive bytes buffer) rest
      | some s ↦ send_first s (run target_port s.buffer rest)
    ]

-- A frame on the wire with right checksums, that is for the port.
abbrev pub IsGood : ℕ → Sent → Type 0
IsGood port sent =
    (bytes : ℕ) × (ip : IpPart) × (s : Segment) × (sent.size ≤ bytes)
    × (accept_ip bytes sent.buffer ≡ some ip)
    × (accept_segment port sent.buffer ip ≡ some s)
    × (checksum (slice 14 ip.hdr_len sent.buffer) ≡ 0)
    × (transport_checksum sent.buffer s.start s.total_len s.protocol ≡ 0)

abbrev pub All {ℓ κ} : {A : Type ℓ} → (A → Type κ) → List A → Type κ
All P [] = Unit
All P (x ∷ xs) = P x × All P xs

abbrev pub IsFrame : Received → Type 0
IsFrame failed = Unit
IsFrame (frame outgoing bytes) = IsBytes bytes
