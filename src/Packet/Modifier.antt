-- ===== src/Packet/Modifier.antt =====
-- hw5/HW5_1_5.c: rewrites the payload of the UDP and TCP packets for one port and sends them on.
-- `buffer` is the whole receive buffer; a frame is its first `bytes` bytes. The lengths are `int`s
-- far from their bounds.
pub mod Guards
pub mod Payload
pub mod Rewrite
pub mod Preserve
pub mod Laws
pub mod Loop
mod Tests
use file_system_homework.Base.{
  ℕ, ◌+◌, ◌-◌, ◌*◌, ◌/◌, ◌%◌, bit_and, Option, none, some, List, [], ◌∷◌, ◌++◌, ltb, leb, ◌==◌,
  if◌then◌else◌, ◌>>=◌, ◌>>◌, guard, length, slice, take, replicate, overwrite,
}
use file_system_homework.Packet.Bytes.{byte_at, store16, htons}
use file_system_homework.Packet.Checksum.{checksum}
use file_system_homework.Packet.Frames.{buffer_size}
use file_system_homework.Packet.Headers.{
  eth_hdr_size, ip_hdr_size, udp_hdr_size, tcp_hdr_size, pseudo_hdr_size, eth_p_ip, ipproto_tcp,
  ipproto_udp, net16, eth_type, ip_version, ip_hdr_len, ip_tot_len, ip_frag_off, ip_protocol,
}

-- "MODIFIED_BY_HW5_1_5"
abbrev pub modify_text : List ℕ
modify_text =
    b'M' ∷ b'O' ∷ b'D' ∷ b'I' ∷ b'F' ∷ b'I' ∷ b'E' ∷ b'D' ∷ b'_' ∷ b'B' ∷ b'Y' ∷ b'_' ∷ b'H' ∷ b'W'
    ∷ b'5' ∷ b'_' ∷ b'1' ∷ b'_' ∷ b'5' ∷ []

-- What the checks of an IPv4 header leave: `ip_hdr_len` and `ip_total_len`.
pub record IpPart : Type 0 where
  pub hdr_len : ℕ
  pub total_len : ℕ

-- The transport header that the code goes on with, where it starts in the buffer, the length that it
-- checksums, and its `check` field.
pub record Segment : Type 0 where
  pub start : ℕ
  pub header_len : ℕ
  pub total_len : ℕ
  pub check_at : ℕ
  pub protocol : ℕ

abbrev pub payload_len : Segment → ℕ
payload_len s = s.total_len - s.header_len

unfoldable pub accept_ip : ℕ → List ℕ → Option IpPart
accept_ip bytes buffer = do
  guard (leb eth_hdr_size bytes)
  guard (eth_type buffer == eth_p_ip)
  guard (leb (eth_hdr_size + ip_hdr_size) bytes)
  guard (ip_version buffer == 4)
  guard (leb ip_hdr_size (ip_hdr_len buffer))
  guard (leb (eth_hdr_size + ip_hdr_len buffer) bytes)
  guard (bit_and (ip_frag_off buffer) 0x3fff == 0)
  guard (leb (ip_hdr_len buffer) (ip_tot_len buffer))
  guard (leb (eth_hdr_size + ip_tot_len buffer) bytes)
  some (record { hdr_len = ip_hdr_len buffer; total_len = ip_tot_len buffer })

unfoldable pub accept_udp : ℕ → List ℕ → IpPart → Option Segment
accept_udp target_port buffer ip = do
  let udp = eth_hdr_size + ip.hdr_len
  guard (leb (ip.hdr_len + udp_hdr_size) ip.total_len)
  guard (net16 buffer (udp + 2) == target_port)
  let udp_total_len = net16 buffer (udp + 4)
  guard (leb udp_hdr_size udp_total_len)
  guard (leb (ip.hdr_len + udp_total_len) ip.total_len)
  guard (ltb 0 (udp_total_len - udp_hdr_size))
  some (record {
    start = udp;
    header_len = udp_hdr_size;
    total_len = udp_total_len;
    check_at = 6;
    protocol = ipproto_udp;
  })

unfoldable pub accept_tcp : ℕ → List ℕ → IpPart → Option Segment
accept_tcp target_port buffer ip = do
  let tcp = eth_hdr_size + ip.hdr_len
  guard (leb (ip.hdr_len + tcp_hdr_size) ip.total_len)
  guard (net16 buffer (tcp + 2) == target_port)
  let tcp_hdr_len = byte_at buffer (tcp + 12) / 16 * 4
  guard (leb tcp_hdr_size tcp_hdr_len)
  guard (leb (ip.hdr_len + tcp_hdr_len) ip.total_len)
  let tcp_total_len = ip.total_len - ip.hdr_len
  guard (ltb 0 (tcp_total_len - tcp_hdr_len))
  some (record {
    start = tcp;
    header_len = tcp_hdr_len;
    total_len = tcp_total_len;
    check_at = 16;
    protocol = ipproto_tcp;
  })

unfoldable pub accept_segment : ℕ → List ℕ → IpPart → Option Segment
accept_segment target_port buffer ip =
    if ip_protocol buffer == ipproto_udp
    then accept_udp target_port buffer ip
    else if ip_protocol buffer == ipproto_tcp
    then accept_tcp target_port buffer ip
    else none

-- `payload` is the offset of the pointer in the buffer.
pub modify_payload_same_length : ℕ → ℕ → List ℕ → List ℕ
modify_payload_same_length payload len buffer =
    let modify_len = if ltb len (length modify_text) then len else length modify_text in
    overwrite payload (take modify_len modify_text) (overwrite payload (replicate len b' ') buffer)

-- The addresses, a zero byte, the protocol and the length in network order.
pub pseudo_header : List ℕ → ℕ → ℕ → List ℕ
pseudo_header buffer transport_len protocol =
    slice 26 4 buffer
    ++ (slice 30 4 buffer
        ++ 0 ∷ protocol ∷ htons transport_len % 256 ∷ htons transport_len / 256 ∷ [])

-- `temp` holds the pseudo header and the segment; only these bytes of it are read.
pub transport_checksum : List ℕ → ℕ → ℕ → ℕ → ℕ
transport_checksum buffer transport_header transport_len protocol =
    if ltb buffer_size (pseudo_hdr_size + transport_len)
    then 0
    else checksum
        (pseudo_header buffer transport_len protocol ++ slice transport_header transport_len buffer)

-- `ip->check = 0; ip->check = checksum(ip, ip_hdr_len);`
pub renew_ip_check : ℕ → List ℕ → List ℕ
renew_ip_check hdr_len buffer =
    let cleared = store16 buffer 24 0 in
    store16 cleared 24 (checksum (slice eth_hdr_size hdr_len cleared))

-- The same for the `check` field of the transport header.
pub renew_segment_check : Segment → List ℕ → List ℕ
renew_segment_check s buffer =
    let cleared = store16 buffer (s.start + s.check_at) 0 in
    store16 cleared (s.start + s.check_at)
      (transport_checksum cleared s.start s.total_len s.protocol)

pub rewrite : IpPart → Segment → List ℕ → List ℕ
rewrite ip s buffer = renew_segment_check s (
    renew_ip_check ip.hdr_len
      (modify_payload_same_length (s.start + s.header_len) (payload_len s) buffer))

-- What goes to `sendto`: the buffer, the number of its bytes that are sent, and the link address.
pub record Sent : Type 0 where
  pub buffer : List ℕ
  pub size : ℕ
  pub address : List ℕ

-- One pass of the loop after `recvfrom`; `none` is a `continue`.
unfoldable pub process : ℕ → ℕ → List ℕ → Option Sent
process target_port bytes buffer = do
  ip ← accept_ip bytes buffer
  s ← accept_segment target_port buffer ip
  some (record {
    buffer = rewrite ip s buffer;
    size = eth_hdr_size + ip.total_len;
    address = slice 0 6 buffer;
  })
