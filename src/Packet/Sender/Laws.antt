-- ===== src/Packet/Sender/Laws.antt =====
-- The packet that hw5/Sender.c sends.
use file_system_homework.Base.{
  ℕ, ◌+◌, ◌/◌, ◌%◌, ◌^◌, ◌≤◌, ◌<◌, ◌≡◌, refl, arith, List, [], ◌∷◌, ◌++◌, slice, take, length,
  overwrite, ap, ◌∙◌, sym, some, bit_and, get_or-slice,
}
use file_system_homework.Packet.Bytes.{byte_at, store16, htons, all_bytes-IsBytes}
use file_system_homework.Packet.Headers.{net16, load32, eth_type, ip_frag_off}
use file_system_homework.Packet.Modifier.{accept_ip, accept_udp, accept_segment}
use file_system_homework.Packet.Checksum.{checksum}
use file_system_homework.Packet.Checksum.Laws.{checksum-store16}
use file_system_homework.Packet.Sender.{
  message, packet_len, with_message, fill_ip, fill_ip_check, fill_udp, build_packet,
}

-- The IP header with no checksum yet.
abbrev pub bare_header : ℕ → ℕ → List ℕ
bare_header source receiver =
    0x45
    ∷ 0
    ∷ 0
    ∷ 47
    ∷ 0x56
    ∷ 0xce
    ∷ 0
    ∷ 0
    ∷ 64
    ∷ 17
    ∷ 0
    ∷ 0
    ∷ source % 65536 % 256
    ∷ source % 65536 / 256 % 256
    ∷ source / 65536 % 65536 % 256
    ∷ source / 65536 % 65536 / 256 % 256
    ∷ receiver % 65536 % 256
    ∷ receiver % 65536 / 256 % 256
    ∷ receiver / 65536 % 65536 % 256
    ∷ receiver / 65536 % 65536 / 256 % 256
    ∷ []

fill_ip_header :
    (source receiver : ℕ)
    → slice 0 20 (fill_ip source receiver with_message) ≡ bare_header source receiver
unfolding fill_ip with_message overwrite
fill_ip_header source receiver = refl

pub build_packet_lem :
    (receiver port source : ℕ)
    → take packet_len (build_packet receiver port source)
      ≡ store16 (bare_header source receiver) 10 (checksum (bare_header source receiver))
        ++ ((0x56 ∷ 0xce ∷ htons port % 256 ∷ htons port / 256 % 256 ∷ 0 ∷ 27 ∷ 0 ∷ 0 ∷ [])
            ++ message)
unfolding build_packet fill_udp fill_ip_check fill_ip with_message overwrite
build_packet_lem receiver port source = refl

-- The packet for any addresses and port carries a right IP checksum, the forged source address, the
-- receiver's address and port, its own lengths, and the message.
pub build_packet-fields :
    (receiver port source : ℕ)
    → receiver < 2 ^ 32
    → source < 2 ^ 32
    → port < 65536
    → let packet = take packet_len (build_packet receiver port source) in
      (length packet ≡ 47)
      × (checksum (slice 0 20 packet) ≡ 0)
      × (byte_at packet 0 ≡ 0x45)
      × (net16 packet 2 ≡ 47)
      × (byte_at packet 9 ≡ 17)
      × (load32 packet 12 ≡ source)
      × (load32 packet 16 ≡ receiver)
      × (net16 packet 22 ≡ port)
      × (net16 packet 24 ≡ 27)
      × (slice 28 19 packet ≡ message)
build_packet-fields receiver port source r s p =
    rw (build_packet_lem receiver port source)
      (refl, checks, refl, refl, refl, omega arith, omega arith, omega arith, refl, refl)
  where
    checks :
        checksum (store16 (bare_header source receiver) 10 (checksum (bare_header source receiver)))
        ≡ 0
    checks =
        checksum-store16 5 (bare_header source receiver)
          (all_bytes-IsBytes (bare_header source receiver) (ground arith), omega arith)
          (omega arith) refl

-- Behind an Ethernet header of type IPv4 the packet passes the checks of hw5/HW5_1_5.c for its port, as
-- a UDP segment whose payload is the message.
pub accept-build_packet :
    (receiver port source bytes : ℕ) (buffer : List ℕ)
    → port < 65536
    → eth_type buffer ≡ 0x0800
    → slice 14 47 buffer ≡ take packet_len (build_packet receiver port source)
    → 61 ≤ bytes
    → (accept_ip bytes buffer ≡ some (record { hdr_len = 20; total_len = 47 }))
      × (accept_segment port buffer (record { hdr_len = 20; total_len = 47 })
          ≡ some
              (record { start = 34; header_len = 8; total_len = 27; check_at = 6; protocol = 17 }))
unfolding accept_ip accept_segment accept_udp
accept-build_packet receiver port source bytes buffer p ip e long = (
  ground (arith, at 0 (omega arith), at 2 (omega arith), at 3 (omega arith), frag),
  ground (
    arith,
    at 9 (omega arith),
    at 22 (omega arith),
    at 23 (omega arith),
    at 24 (omega arith),
    at 25 (omega arith),
  ),
)
  where
    header : List ℕ
    header = bare_header source receiver

    packet : List ℕ
    packet =
        store16 header 10 (checksum header)
        ++ ((0x56 ∷ 0xce ∷ htons port % 256 ∷ htons port / 256 % 256 ∷ 0 ∷ 27 ∷ 0 ∷ 0 ∷ [])
            ++ message)

    at : (i : ℕ) → i < 47 → byte_at buffer (14 + i) ≡ byte_at packet i
    at i h =
        sym (get_or-slice 14 47 buffer i 0 h)
        ∙ ap (λ (l : List ℕ). byte_at l i) (e ∙ build_packet_lem receiver port source)

    frag : bit_and (ip_frag_off buffer) 0x3fff ≡ 0
    frag = rw (at 6 (omega arith), at 7 (omega arith)) refl
