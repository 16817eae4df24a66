-- ===== src/Packet/Pipeline/Tests.antt =====
-- hw5: a packet from 1.2.3.4 to port 9090 of 10.0.0.2, on its way.
use file_system_homework.Base.{
  ℕ, ◌≡◌, refl, arith, List, ◌∷◌, some, length, slice, take, take_all, length-take, c_string,
  overwrite, ◌≤◌,
}
use file_system_homework.Packet.Bytes.{IsBytes, all_bytes-IsBytes}
use file_system_homework.Packet.Checksum.{checksum, sum_words, fold_carries}
use file_system_homework.Packet.Modifier.{Sent, modify_text, transport_checksum, process}
use file_system_homework.Packet.Sender.{
  packet_len, build_packet, fill_udp, fill_ip_check, fill_ip, with_message,
}
use file_system_homework.Packet.Receiver.{fill_buffer}
use file_system_homework.Packet.Pipeline.{process-build_packet}

abbrev receiver : ℕ
receiver = 0x0200000a

abbrev source : ℕ
source = 0x04030201

-- The packet behind an Ethernet header.
abbrev on_wire : List ℕ
on_wire =
    2
    ∷ 0
    ∷ 0
    ∷ 0
    ∷ 0
    ∷ 2
    ∷ 2
    ∷ 0
    ∷ 0
    ∷ 0
    ∷ 0
    ∷ 1
    ∷ 8
    ∷ 0
    ∷ take packet_len (build_packet receiver 9090 source)

on_wire-IsBytes : IsBytes on_wire
unfolding build_packet fill_udp fill_ip_check fill_ip with_message overwrite checksum sum_words
    fold_carries
on_wire-IsBytes = all_bytes-IsBytes on_wire refl

length-on_wire : 61 ≤ length on_wire
unfolding build_packet fill_udp fill_ip_check fill_ip with_message overwrite checksum sum_words
    fold_carries
length-on_wire = omega arith

process-build_packet_example :
    (s : Sent) × (process 9090 61 on_wire ≡ some s)
    × (s.size ≡ 61)
    × (s.address ≡ slice 0 6 on_wire)
    × (checksum (slice 14 20 s.buffer) ≡ 0)
    × (transport_checksum s.buffer 34 27 17 ≡ 0)
    × (c_string (fill_buffer (slice 42 19 s.buffer)) ≡ modify_text)
process-build_packet_example =
    process-build_packet receiver 9090 source 61 on_wire (omega arith) refl
      (take_all 47 (take packet_len (build_packet receiver 9090 source))
        (omega (arith, length-take 47 (build_packet receiver 9090 source))))
      (omega arith) length-on_wire on_wire-IsBytes
