-- ===== src/Packet/Sender.antt =====
-- hw5/Sender.c: one UDP packet with a forged source address. The arguments are the results of
-- `inet_addr` (as the four bytes lie in memory, read by a little-endian host) and of `atoi` (as a bit
-- pattern).
pub mod Laws
mod Tests
use file_system_homework.Base.{
  ℕ, ◌+◌, ◌*◌, ◌/◌, ◌%◌, Bool, true, false, List, [], ◌∷◌, set, slice, take, replicate, overwrite,
  if◌then◌else◌, length,
}
use file_system_homework.Packet.Bytes.{byte_at, store16, htons}
use file_system_homework.Packet.Checksum.{checksum}
use file_system_homework.Packet.Headers.{ip_hdr_size, udp_hdr_size, ipproto_udp}

abbrev pub buffer_size : ℕ
buffer_size = 4096

-- "oooi, shia mi shi i"
abbrev pub message : List ℕ
message =
    b'o' ∷ b'o' ∷ b'o' ∷ b'i' ∷ b',' ∷ b' ' ∷ b's' ∷ b'h' ∷ b'i' ∷ b'a' ∷ b' ' ∷ b'm' ∷ b'i' ∷ b' '
    ∷ b's' ∷ b'h' ∷ b'i' ∷ b' ' ∷ b'i' ∷ []

abbrev pub data_len : ℕ
data_len = length message

abbrev pub packet_len : ℕ
packet_len = ip_hdr_size + udp_hdr_size + data_len

-- `*(unsigned int *)(buf + off) = v`
abbrev pub store32 : List ℕ → ℕ → ℕ → List ℕ
store32 buf off v = store16 (store16 buf off (v % 65536)) (off + 2) (v / 65536 % 65536)

-- `memset` and `strcpy`, whose last byte is the end of the string.
unfoldable pub with_message : List ℕ
with_message = overwrite 28 message (replicate buffer_size 0)

-- The fields of `struct iphdr`, in the order of the code; `check` is 0.
unfoldable pub fill_ip : ℕ → ℕ → List ℕ → List ℕ
fill_ip source receiver p0 =
    let p1 = set p0 0 (byte_at p0 0 % 16 + 4 * 16) in
    let p2 = set p1 0 (byte_at p1 0 / 16 * 16 + 5) in
    let p3 = set p2 1 0 in
    let p4 = store16 p3 2 (htons packet_len) in
    let p5 = store16 p4 4 (htons 22222) in
    let p6 = store16 p5 6 0 in
    let p7 = set p6 8 64 in
    let p8 = set p7 9 ipproto_udp in
    let p9 = store32 p8 12 source in let p10 = store32 p9 16 receiver in store16 p10 10 0

unfoldable pub fill_ip_check : List ℕ → List ℕ
fill_ip_check packet = store16 packet 10 (checksum (slice 0 ip_hdr_size packet))

unfoldable pub fill_udp : ℕ → List ℕ → List ℕ
fill_udp port p0 =
    let p1 = store16 p0 20 (htons 22222) in
    let p2 = store16 p1 22 (htons port) in
    let p3 = store16 p2 24 (htons (udp_hdr_size + data_len)) in store16 p3 26 0

unfoldable pub build_packet : ℕ → ℕ → ℕ → List ℕ
build_packet receiver port source =
    fill_udp port (fill_ip_check (fill_ip source receiver with_message))

-- Which of the system calls fail.
pub record Outcomes : Type 0 where
  pub socket : Bool
  pub setsockopt : Bool
  pub sendto : Bool

-- The exit code, the bytes that `sendto` was given if it was called, and the descriptors left open.
pub record Run : Type 0 where
  pub code : ℕ
  pub sent : List ℕ
  pub open_sockets : ℕ

pub main : Outcomes → ℕ → ℕ → ℕ → Run
main os receiver port source =
    let packet = take packet_len (build_packet receiver port source) in
    if os.socket
    then if os.setsockopt
      then if os.sendto
        then record { code = 0; sent = packet; open_sockets = 0 }
        else record { code = 1; sent = packet; open_sockets = 0 }
      else record { code = 1; sent = []; open_sockets = 0 }
    else record { code = 1; sent = []; open_sockets = 0 }
