-- ===== src/Packet/Capture/Tests.antt =====
-- Short frames, and the theorems at them.
use file_system_homework.Base.{
  ℕ, ◌≡◌, refl, arith, List, [], ◌∷◌, ◌++◌, replicate, length-replicate, overwrite,
}
use file_system_homework.Packet.Frames.{buffer_size, receive}
use file_system_homework.Packet.Capture.{
  Received, failed, frame, packet_num, no_counts, count_protocol, count_frame, count_loop,
  run_mode1, accept_mode2, report_loop,
}
use file_system_homework.Packet.Capture.Totals.{
  eth_total, ip_total, consumed, with_header, run_mode1-totals,
}
use file_system_homework.Packet.Capture.Kinds.{tcp, counter, number_of, run_mode1-number_of}

abbrev ethernet : List ℕ
ethernet = 2 ∷ 0 ∷ 0 ∷ 0 ∷ 0 ∷ 2 ∷ 2 ∷ 0 ∷ 0 ∷ 0 ∷ 0 ∷ 1 ∷ 8 ∷ 0 ∷ []

-- UDP from 10.0.0.1:4660 to 10.0.0.2:9090, and TCP between 10.0.0.1 and 10.0.0.3.
abbrev udp_frame : List ℕ
udp_frame =
    ethernet
    ++ (0x45 ∷ 0 ∷ 0 ∷ 28 ∷ 0 ∷ 0 ∷ 0 ∷ 0 ∷ 64 ∷ 17 ∷ 0 ∷ 0 ∷ 10 ∷ 0 ∷ 0 ∷ 1 ∷ 10 ∷ 0 ∷ 0 ∷ 2 ∷ 0x12
        ∷ 0x34 ∷ 0x23 ∷ 0x82 ∷ 0 ∷ 8 ∷ 0 ∷ 0 ∷ [])

abbrev tcp_frame : List ℕ
tcp_frame =
    ethernet
    ++ (0x45
        ∷ 0
        ∷ 0
        ∷ 40
        ∷ 0
        ∷ 0
        ∷ 0
        ∷ 0
        ∷ 64
        ∷ 6
        ∷ 0
        ∷ 0
        ∷ 10
        ∷ 0
        ∷ 0
        ∷ 1
        ∷ 10
        ∷ 0
        ∷ 0
        ∷ 3
        ∷ replicate 20 0)

abbrev events : List Received
events = frame udp_frame ∷ frame (1 ∷ 2 ∷ []) ∷ frame tcp_frame ∷ failed ∷ []

abbrev zeros : List ℕ
zeros = replicate buffer_size 0

-- 10.0.0.2, as a little-endian host reads it.
abbrev my_ip : ℕ
my_ip = 0x0200000a

-- An IPv4 frame that ends with its Ethernet header is counted by the protocol byte of the frame before.
stale_protocol :
    (count_loop 2 (replicate 64 0) (frame tcp_frame ∷ frame ethernet ∷ []) no_counts).counts.tcp ≡ 2
unfolding count_loop count_frame count_protocol receive overwrite
stale_protocol = refl

one_report :
    (report_loop (accept_mode2 my_ip) 5 (replicate 64 0) events).reports
    ≡ record {
      source_mac = 2 ∷ 0 ∷ 0 ∷ 0 ∷ 0 ∷ 1 ∷ [];
      dest_mac = 2 ∷ 0 ∷ 0 ∷ 0 ∷ 0 ∷ 2 ∷ [];
      src_ip = 0x0100000a;
      dst_ip = my_ip;
      src_port = 4660;
      dst_port = 9090;
    }
      ∷ []
unfolding report_loop accept_mode2 receive overwrite
one_report = refl

run_mode1-totals_example :
    let c = (run_mode1 zeros events).counts in
    (eth_total c ≡ with_header (consumed packet_num events)) × (ip_total c ≡ c.ipv4)
unfolding consumed
run_mode1-totals_example = run_mode1-totals zeros events (omega arith)

run_mode1-number_of_example :
    counter tcp (run_mode1 zeros events).counts ≡ number_of tcp (consumed packet_num events)
unfolding consumed
run_mode1-number_of_example =
    run_mode1-number_of tcp zeros events (λ e. cc) (length-replicate {A = ℕ} buffer_size 0)
      (omega arith)
