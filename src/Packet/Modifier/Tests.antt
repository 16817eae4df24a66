-- ===== src/Packet/Modifier/Tests.antt =====
-- A UDP frame with the payload "ping" for port 9090, and the theorems at it.
use file_system_homework.Base.{
  ℕ, ◌≡◌, refl, true, List, [], ◌∷◌, ◌++◌, none, slice, replicate, overwrite,
}
use file_system_homework.Packet.Checksum.{checksum, sum_words, fold_carries}
use file_system_homework.Packet.Frames.{buffer_size}
use file_system_homework.Packet.Modifier.{
  IpPart, Segment, Sent, accept_ip, accept_segment, accept_udp, transport_checksum, pseudo_header,
  renew_ip_check, renew_segment_check, modify_payload_same_length, rewrite, process,
}
use file_system_homework.Packet.Modifier.Loop.{failed, frame, run, stopped}

abbrev ping : List ℕ
ping =
    0x02 ∷ 0 ∷ 0 ∷ 0 ∷ 0 ∷ 0x02 ∷ 0x02 ∷ 0 ∷ 0 ∷ 0 ∷ 0 ∷ 0x01 ∷ 0x08 ∷ 0x00 ∷ 0x45 ∷ 0 ∷ 0 ∷ 32 ∷ 0
    ∷ 0 ∷ 0 ∷ 0 ∷ 64 ∷ 17 ∷ 0 ∷ 0 ∷ 10 ∷ 0 ∷ 0 ∷ 1 ∷ 10 ∷ 0 ∷ 0 ∷ 2 ∷ 0x12 ∷ 0x34 ∷ 0x23 ∷ 0x82 ∷ 0
    ∷ 12 ∷ 0 ∷ 0 ∷ b'p' ∷ b'i' ∷ b'n' ∷ b'g' ∷ []

abbrev ping_ip : IpPart
ping_ip = record { hdr_len = 20; total_len = 32 }

abbrev ping_segment : Segment
ping_segment = record { start = 34; header_len = 8; total_len = 12; check_at = 6; protocol = 17 }

abbrev ping_sent : Sent
ping_sent = record {
  buffer = rewrite ping_ip ping_segment ping;
  size = 46;
  address = 0x02 ∷ 0 ∷ 0 ∷ 0 ∷ 0 ∷ 0x02 ∷ [];
}

-- The checksums 66cb and 2485 in network order, and "MODI".
rewritten_ping :
    slice 24 2 ping_sent.buffer ++ slice 40 6 ping_sent.buffer
    ≡ 0x66 ∷ 0xcb ∷ 0x24 ∷ 0x85 ∷ b'M' ∷ b'O' ∷ b'D' ∷ b'I' ∷ []
unfolding rewrite renew_ip_check renew_segment_check modify_payload_same_length transport_checksum
    pseudo_header checksum sum_words fold_carries overwrite
rewritten_ping = refl

wrong_port : process 9091 46 ping ≡ none
unfolding process accept_ip accept_segment accept_udp
wrong_port = refl

cut_short : process 9090 45 ping ≡ none
unfolding process accept_ip
cut_short = refl

own_frame_ignored :
    run 9090 (replicate 64 0) (frame true ping ∷ failed ∷ [])
    ≡ record { sent = []; ending = stopped }
unfolding run
own_frame_ignored = refl

abbrev zeros : List ℕ
zeros = replicate buffer_size 0
