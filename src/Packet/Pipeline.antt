-- ===== src/Packet/Pipeline.antt =====
-- hw5: the way of a packet of Sender.c through HW5_1_5.c to Receiver.c. The kernel hands the receiver the payload of the UDP
-- segment in the frame.
mod Tests
use file_system_homework.Base.{
  ℕ, ◌+◌, ◌*◌, ◌%◌, ◌^◌, ◌≤◌, ◌<◌, ◌≡◌, ◌∙◌, refl, sym, ap, arith, List, [], some, length, slice,
  take, get_or, get_or_ext, get_or_default, get_or-slice, length-slice, c_string,
}
use file_system_homework.Packet.Bytes.{byte_at, IsBytes}
use file_system_homework.Packet.Checksum.{checksum}
use file_system_homework.Packet.Headers.{eth_type}
use file_system_homework.Packet.Modifier.{
  IpPart, Segment, Sent, modify_text, transport_checksum, rewrite, process, accept_ip,
  accept_segment,
}
use file_system_homework.Packet.Modifier.Guards.{
  IsIpPart, IsSegment, accept_ip-IsIpPart, accept_segment-IsSegment,
}
use file_system_homework.Packet.Modifier.Preserve.{
  byte_at-rewrite_payload, length-rewrite, rewrite-ip_valid, rewrite-segment_valid,
}
use file_system_homework.Packet.Sender.{packet_len, build_packet}
use file_system_homework.Packet.Sender.Laws.{accept-build_packet}
use file_system_homework.Packet.Receiver.{fill_buffer, fill_buffer-c_string}

-- Where the headers of a packet of the sender lie in a frame.
abbrev ip : IpPart
ip = record { hdr_len = 20; total_len = 47 }

abbrev segment : Segment
segment = record { start = 34; header_len = 8; total_len = 27; check_at = 6; protocol = 17 }

-- A frame with a packet of the sender in it, in a buffer of the modifier.
module _ (receiver port source bytes : ℕ) (buffer : List ℕ) (is_port : port < 65536)
    (is_ip : eth_type buffer ≡ 0x0800)
    (carries : slice 14 47 buffer ≡ take packet_len (build_packet receiver port source))
    (received : 61 ≤ bytes) (whole : bytes ≤ length buffer) (are_bytes : IsBytes buffer) where
  accepted : (accept_ip bytes buffer ≡ some ip) × (accept_segment port buffer ip ≡ some segment)
  accepted = accept-build_packet receiver port source bytes buffer is_port is_ip carries received

  ip_part : IsIpPart bytes buffer ip
  ip_part = accept_ip-IsIpPart bytes buffer ip accepted.0

  is_segment : IsSegment port buffer ip segment
  is_segment = accept_segment-IsSegment port buffer ip segment accepted.1

  abbrev sent : Sent
  sent = record { buffer = rewrite ip segment buffer; size = 61; address = slice 0 6 buffer }

  process-sent : process port bytes buffer ≡ some sent
  unfolding process
  process-sent = rw (process, accepted.0, accepted.1) refl

  payload-modify_text : slice 42 19 sent.buffer ≡ modify_text
  payload-modify_text = get_or_ext 0 (slice 42 19 sent.buffer) modify_text long (λ i h.
      get_or-slice 42 19 sent.buffer i 0 (omega (arith, h, long))
      ∙ byte_at-rewrite_payload bytes port buffer ip segment whole ip_part is_segment i
          (omega (arith, h, long))
      ∙ get_or_default modify_text i b' ' 0 (omega (arith, h, long)))
    where
      long : length (slice 42 19 sent.buffer) ≡ 19
      long =
          length-slice 42 19 sent.buffer
            (omega (arith, received, whole, length-rewrite ip segment buffer))

  shown : c_string (fill_buffer (slice 42 19 sent.buffer)) ≡ modify_text
  unfolding c_string
  shown =
      ap (λ t. c_string (fill_buffer t)) payload-modify_text ∙ (fill_buffer-c_string modify_text).0

  -- If a packet of the sender to the port, for any addresses, lies whole behind an Ethernet header of type IPv4 in the buffer of
  -- bytes of the modifier, then the modifier sends a frame of 61 bytes to the link address of the frame that came; the
  -- checksums of its IP header and of its UDP segment are right; and what the receiver shows of its payload is
  -- "MODIFIED_BY_HW5_1_5", whole.
  pub process-build_packet :
      (s : Sent) × (process port bytes buffer ≡ some s)
      × (s.size ≡ 61)
      × (s.address ≡ slice 0 6 buffer)
      × (checksum (slice 14 20 s.buffer) ≡ 0)
      × (transport_checksum s.buffer 34 27 17 ≡ 0)
      × (c_string (fill_buffer (slice 42 19 s.buffer)) ≡ modify_text)
  process-build_packet = (
    sent,
    process-sent,
    refl,
    refl,
    rewrite-ip_valid bytes port buffer ip segment are_bytes whole ip_part is_segment,
    rewrite-segment_valid bytes port buffer ip segment are_bytes whole ip_part is_segment,
    shown,
  )
