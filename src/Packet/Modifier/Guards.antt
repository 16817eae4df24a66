-- ===== src/Packet/Modifier/Guards.antt =====
-- What the checks of hw5/HW5_1_5.c leave: where the headers and the payload lie in the frame.
use file_system_homework.Base.{
  ℕ, ◌+◌, ◌%◌, ◌^◌, ◌≤◌, ◌<◌, ◌≡◌, ◌⊎◌, arith, some, List, bit_and_mask,
}
use file_system_homework.Packet.Headers.{
  eth_type, ip_version, ip_hdr_len, ip_tot_len, ip_frag_off, ip_protocol, net16,
}
use file_system_homework.Packet.Modifier.{
  IpPart, Segment, accept_ip, accept_udp, accept_tcp, accept_segment,
}

-- An unfragmented IPv4 packet that lies in the frame.
pub record IsIpPart (bytes : ℕ) (buffer : List ℕ) (ip : IpPart) : Type 0 where
  pub hdr_len : ip.hdr_len ≡ ip_hdr_len buffer
  pub total_len : ip.total_len ≡ ip_tot_len buffer
  pub is_ip : eth_type buffer ≡ 0x0800
  pub version : ip_version buffer ≡ 4
  pub unfragmented : ip_frag_off buffer % 2 ^ 14 ≡ 0
  pub min_len : 20 ≤ ip.hdr_len
  pub ordered : ip.hdr_len ≤ ip.total_len
  pub inside : 14 + ip.total_len ≤ bytes

pub accept_ip-IsIpPart :
    (bytes : ℕ) (buffer : List ℕ) (ip : IpPart)
    → accept_ip bytes buffer ≡ some ip
    → IsIpPart bytes buffer ip
unfolding accept_ip
accept_ip-IsIpPart bytes buffer ip e = ground (arith, bit_and_mask 14 (ip_frag_off buffer))

-- A transport header with a payload that is not empty, inside the IP packet.
pub record IsSegment (port : ℕ) (buffer : List ℕ) (ip : IpPart) (s : Segment) : Type 0 where
  pub start : s.start ≡ 14 + ip.hdr_len
  pub to_port : net16 buffer (s.start + 2) ≡ port
  pub protocol : s.protocol ≡ ip_protocol buffer
  pub check_at : ((s.protocol ≡ 17) × (s.check_at ≡ 6)) ⊎ ((s.protocol ≡ 6) × (s.check_at ≡ 16))
  pub tcp_header : s.protocol ≡ 6 → 20 ≤ s.header_len
  pub check_inside : s.check_at + 2 ≤ s.header_len
  pub payload : s.header_len < s.total_len
  pub inside : ip.hdr_len + s.total_len ≤ ip.total_len

pub accept_segment-IsSegment :
    (port : ℕ) (buffer : List ℕ) (ip : IpPart) (s : Segment)
    → accept_segment port buffer ip ≡ some s
    → IsSegment port buffer ip s
unfolding accept_segment accept_udp accept_tcp
accept_segment-IsSegment port buffer ip s e = ground arith
