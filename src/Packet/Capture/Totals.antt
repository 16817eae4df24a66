-- ===== src/Packet/Capture/Totals.antt =====
-- `run_mode1` against the kinds of the frames.
use file_system_homework.Base.{
  ℕ, zero, suc, ◌+◌, ◌≤◌, ◌≡◌, arith, List, [], ◌∷◌, ltb, if◌then◌else◌, length,
}
use file_system_homework.Packet.Frames.{buffer_size, receive, received, received_whole}
use file_system_homework.Packet.Capture.{
  Received, failed, frame, Counts, no_counts, count_protocol, count_frame, count_loop, run_mode1,
  packet_num,
}

-- Every Ethernet kind is counted once, and IPv4 once more by protocol.
abbrev pub eth_total : Counts → ℕ
eth_total c = c.ipv4 + c.arp + c.rarp + c.eth_others

abbrev pub ip_total : Counts → ℕ
ip_total c = c.tcp + c.udp + c.icmp + c.igmp + c.ip_others

-- The frames that `recvfrom` gives before it fails, at most `rounds`.
unfoldable pub consumed : ℕ → List Received → List (List ℕ)
consumed zero events = []
consumed (suc rounds) [] = []
consumed (suc rounds) (failed ∷ rest) = []
consumed (suc rounds) (frame bytes ∷ rest) = bytes ∷ consumed rounds rest

-- Those with a whole Ethernet header.
pub with_header : List (List ℕ) → ℕ
with_header [] = 0
with_header (bytes ∷ rest) =
    if ltb (length bytes) 14 then with_header rest else suc (with_header rest)

abbrev pub Fits : List (List ℕ) → Type 0
Fits [] = Unit {0}
Fits (bytes ∷ rest) = (length bytes ≤ buffer_size) × Fits rest

count_frame-totals :
    (bytes : ℕ) (buffer : List ℕ) (c : Counts)
    → let c' = count_frame bytes buffer c in
      (eth_total c' ≡ eth_total c + (if ltb bytes 14 then 0 else 1))
      × (ip_total c' + c.ipv4 ≡ ip_total c + c'.ipv4)
unfolding count_frame count_protocol
count_frame-totals bytes buffer c = ground arith

count_loop-totals :
    (rounds : ℕ) (buffer : List ℕ) (events : List Received) (c : Counts)
    → Fits (consumed rounds events)
    → let c' = (count_loop rounds buffer events c).counts in
      (eth_total c' ≡ eth_total c + with_header (consumed rounds events))
      × (ip_total c' + c.ipv4 ≡ ip_total c + c'.ipv4)
unfolding count_loop consumed with_header
count_loop-totals zero buffer events c f = (omega arith, omega arith)
count_loop-totals (suc rounds) buffer [] c f = (omega arith, omega arith)
count_loop-totals (suc rounds) buffer (failed ∷ rest) c f = (omega arith, omega arith)
count_loop-totals (suc rounds) buffer (frame bytes ∷ rest) c f = ground (
  arith,
  count_frame-totals (received bytes) (receive bytes buffer) c,
  count_loop-totals rounds (receive bytes buffer) rest
      (count_frame (received bytes) (receive bytes buffer) c) (f.1),
  received_whole bytes (f.0),
)

-- For every sequence of frames that fit the buffer, the four Ethernet counters of `run_mode1` add up to
-- the number of frames with a whole Ethernet header among the first 200, and the five protocol counters
-- to the IPv4 counter.
pub run_mode1-totals :
    (buffer : List ℕ) (events : List Received)
    → Fits (consumed packet_num events)
    → let c = (run_mode1 buffer events).counts in
      (eth_total c ≡ with_header (consumed packet_num events)) × (ip_total c ≡ c.ipv4)
unfolding run_mode1
run_mode1-totals buffer events f =
    omega (arith, count_loop-totals packet_num buffer events no_counts f)
