-- ===== src/Packet/Sender/Tests.antt =====
-- A packet from 1.2.3.4 to port 9090 of 10.0.0.2, and the theorems at it.
use file_system_homework.Base.{
  ℕ, ◌≡◌, refl, arith, true, false, [], ◌∷◌, length, slice, take, overwrite,
}
use file_system_homework.Packet.Bytes.{byte_at}
use file_system_homework.Packet.Headers.{net16, load32}
use file_system_homework.Packet.Checksum.{checksum, sum_words, fold_carries}
use file_system_homework.Packet.Sender.{
  message, packet_len, with_message, fill_ip, fill_ip_check, fill_udp, build_packet, main,
}
use file_system_homework.Packet.Sender.Laws.{build_packet-fields}

abbrev receiver : ℕ
receiver = 0x0200000a

abbrev source : ℕ
source = 0x04030201

-- The header's checksum is 15e9 in network order.
first_words :
    slice 0 12 (build_packet receiver 9090 source)
    ≡ 0x45 ∷ 0 ∷ 0 ∷ 47 ∷ 0x56 ∷ 0xce ∷ 0 ∷ 0 ∷ 64 ∷ 17 ∷ 0x15 ∷ 0xe9 ∷ []
unfolding build_packet fill_udp fill_ip_check fill_ip with_message overwrite checksum sum_words
    fold_carries
first_words = refl

no_socket :
    (main (record { socket = false; setsockopt = true; sendto = true }) receiver 9090 source).code
    ≡ 1
unfolding main
no_socket = refl

build_packet-fields_example :
    let packet = take packet_len (build_packet receiver 9090 source) in
    (length packet ≡ 47)
    × (checksum (slice 0 20 packet) ≡ 0)
    × (byte_at packet 0 ≡ 0x45)
    × (net16 packet 2 ≡ 47)
    × (byte_at packet 9 ≡ 17)
    × (load32 packet 12 ≡ source)
    × (load32 packet 16 ≡ receiver)
    × (net16 packet 22 ≡ 9090)
    × (net16 packet 24 ≡ 27)
    × (slice 28 19 packet ≡ message)
build_packet-fields_example =
    build_packet-fields receiver 9090 source (omega arith) (omega arith) (omega arith)
