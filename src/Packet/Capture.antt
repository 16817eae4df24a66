-- ===== src/Packet/Capture.antt =====
-- hw5/HW5_1.c: `run_mode1` counts frames by protocol, `run_mode2` and `run_mode3` report five packets.
pub mod Totals
pub mod Kinds
pub mod ReadsFrame
pub mod Reports
mod Tests
use file_system_homework.Base.{
  ℕ, zero, suc, ◌+◌, ◌*◌, ◌%◌, Bool, true, false, ◌||◌, List, [], ◌∷◌, Option, some, none, ltb, leb,
  ◌==◌, not, if◌then◌else◌, ◌>>=◌, ◌>>◌, guard, slice,
}
use file_system_homework.Packet.Bytes.{byte_at, htons}
use file_system_homework.Packet.Frames.{receive, received}
use file_system_homework.Packet.Headers.{
  eth_hdr_size, ip_hdr_size, udp_hdr_size, tcp_hdr_size, eth_p_ip, eth_p_arp, eth_p_rarp,
  ipproto_icmp, ipproto_igmp, ipproto_tcp, ipproto_udp, net16, eth_type, ip_hdr_len, ip_protocol,
  ip_saddr, ip_daddr,
}

-- What `recvfrom` returns.
pub data Received : Type 0 where
  failed : Received
  frame : List ℕ → Received

-- Done, by a `break`, or blocked in `recvfrom`.
pub data Ending : Type 0 where
  done stopped waiting : Ending

pub record Counts : Type 0 where
  pub ipv4 : ℕ
  pub arp : ℕ
  pub rarp : ℕ
  pub eth_others : ℕ
  pub tcp : ℕ
  pub udp : ℕ
  pub icmp : ℕ
  pub igmp : ℕ
  pub ip_others : ℕ

abbrev pub packet_num : ℕ
packet_num = 200

abbrev pub no_counts : Counts
no_counts = record {
  ipv4 = 0;
  arp = 0;
  rarp = 0;
  eth_others = 0;
  tcp = 0;
  udp = 0;
  icmp = 0;
  igmp = 0;
  ip_others = 0;
}

-- `switch(ip->protocol)`
pub count_protocol : ℕ → Counts → Counts
count_protocol protocol c =
    if protocol == ipproto_tcp
    then record c { tcp = c.tcp + 1 }
    else if protocol == ipproto_udp
    then record c { udp = c.udp + 1 }
    else if protocol == ipproto_icmp
    then record c { icmp = c.icmp + 1 }
    else if protocol == ipproto_igmp
    then record c { igmp = c.igmp + 1 }
    else record c { ip_others = c.ip_others + 1 }

-- One pass of the loop of `run_mode1` after `recvfrom`.
pub count_frame : ℕ → List ℕ → Counts → Counts
count_frame bytes buffer c =
    if ltb bytes eth_hdr_size
    then c
    else if eth_type buffer == eth_p_ip
    then count_protocol (ip_protocol buffer) (record c { ipv4 = c.ipv4 + 1 })
    else if eth_type buffer == eth_p_arp
    then record c { arp = c.arp + 1 }
    else if eth_type buffer == eth_p_rarp
    then record c { rarp = c.rarp + 1 }
    else record c { eth_others = c.eth_others + 1 }

pub record Counted : Type 0 where
  pub counts : Counts
  pub ending : Ending

-- The `for` loop with `rounds` left.
pub count_loop : ℕ → List ℕ → List Received → Counts → Counted
count_loop zero buffer events c = record { counts = c; ending = done }
count_loop (suc rounds) buffer [] c = record { counts = c; ending = waiting }
count_loop (suc rounds) buffer (failed ∷ rest) c = record { counts = c; ending = stopped }
count_loop (suc rounds) buffer (frame bytes ∷ rest) c =
    count_loop rounds (receive bytes buffer) rest
      (count_frame (received bytes) (receive bytes buffer) c)

pub run_mode1 : List ℕ → List Received → Counted
run_mode1 buffer events = count_loop packet_num buffer events no_counts

-- What is printed for a packet.
pub record Report : Type 0 where
  pub source_mac : List ℕ
  pub dest_mac : List ℕ
  pub src_ip : ℕ
  pub dst_ip : ℕ
  pub src_port : ℕ
  pub dst_port : ℕ

abbrev pub report : List ℕ → Report
report buffer = record {
  source_mac = slice 6 6 buffer;
  dest_mac = slice 0 6 buffer;
  src_ip = ip_saddr buffer;
  dst_ip = ip_daddr buffer;
  src_port = net16 buffer (eth_hdr_size + ip_hdr_len buffer);
  dst_port = net16 buffer (eth_hdr_size + ip_hdr_len buffer + 2);
}

-- The checks of `run_mode2`: UDP to this host.
pub accept_mode2 : ℕ → ℕ → List ℕ → Option Report
accept_mode2 my_ip bytes buffer = do
  guard (leb eth_hdr_size bytes)
  guard (eth_type buffer == eth_p_ip)
  guard (leb (eth_hdr_size + ip_hdr_size) bytes)
  guard (ip_protocol buffer == ipproto_udp)
  guard (ip_daddr buffer == my_ip)
  guard (leb (eth_hdr_size + ip_hdr_len buffer + udp_hdr_size) bytes)
  some (report buffer)

-- The checks of `run_mode3`: TCP between other hosts.
pub accept_mode3 : ℕ → ℕ → List ℕ → Option Report
accept_mode3 my_ip bytes buffer = do
  guard (leb eth_hdr_size bytes)
  guard (eth_type buffer == eth_p_ip)
  guard (leb (eth_hdr_size + ip_hdr_size) bytes)
  guard (ip_protocol buffer == ipproto_tcp)
  guard (not (ip_saddr buffer == my_ip || ip_daddr buffer == my_ip))
  guard (leb (eth_hdr_size + ip_hdr_len buffer + tcp_hdr_size) bytes)
  some (report buffer)

pub record Reported : Type 0 where
  pub reports : List Report
  pub ending : Ending

abbrev report_first : Report → Reported → Reported
report_first r t = record t { reports = r ∷ t.reports }

-- `while(count < 5)` of both, with `left` packets to come.
pub report_loop : (ℕ → List ℕ → Option Report) → ℕ → List ℕ → List Received → Reported
report_loop accept zero buffer events = record { reports = []; ending = done }
report_loop accept (suc left) buffer [] = record { reports = []; ending = waiting }
report_loop accept (suc left) buffer (failed ∷ rest) = record { reports = []; ending = stopped }
report_loop accept (suc left) buffer (frame bytes ∷ rest) =
    elim (accept (received bytes) (receive bytes buffer)) [
      | none ↦ report_loop accept (suc left) (receive bytes buffer) rest
      | some r ↦ report_first r (report_loop accept left (receive bytes buffer) rest)
    ]

pub run_mode2 : ℕ → List ℕ → List Received → Reported
run_mode2 my_ip buffer events = report_loop (accept_mode2 my_ip) 5 buffer events

pub run_mode3 : ℕ → List ℕ → List Received → Reported
run_mode3 my_ip buffer events = report_loop (accept_mode3 my_ip) 5 buffer events
