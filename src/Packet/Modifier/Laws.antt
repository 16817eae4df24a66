-- ===== src/Packet/Modifier/Laws.antt =====
-- What one pass of the loop of hw5/HW5_1_5.c sends.
use file_system_homework.Base.{ℕ, ◌+◌, ◌≡◌, arith, List, slice, some}
use file_system_homework.Packet.Bytes.{IsBytes}
use file_system_homework.Packet.Modifier.{
  IpPart, Segment, Sent, accept_ip, accept_segment, rewrite, process,
}
use file_system_homework.Packet.Modifier.Preserve.{IsBytes-rewrite}

-- The parts of a pass that sends.
record Pass (port bytes : ℕ) (buffer : List ℕ) (sent : Sent) : Type 0 where
  ip : IpPart
  s : Segment
  ip_accepted : accept_ip bytes buffer ≡ some ip
  s_accepted : accept_segment port buffer ip ≡ some s
  result : sent ≡ record {
    buffer = rewrite ip s buffer;
    size = 14 + ip.total_len;
    address = slice 0 6 buffer;
  }

process-Pass :
    (port bytes : ℕ) (buffer : List ℕ) (sent : Sent)
    → process port bytes buffer ≡ some sent
    → Pass port bytes buffer sent
unfolding process
process-Pass port bytes buffer sent e = ground arith

pub process-IsBytes :
    (port bytes : ℕ) (buffer : List ℕ) (sent : Sent)
    → IsBytes buffer
    → process port bytes buffer ≡ some sent
    → IsBytes sent.buffer
process-IsBytes port bytes buffer sent b e = rw p.result (IsBytes-rewrite p.ip p.s buffer b)
  where
    p : Pass port bytes buffer sent
    p = process-Pass port bytes buffer sent e
