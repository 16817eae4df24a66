-- ===== src/Packet/Headers.antt =====
-- The header structures of <linux/if_ether.h>, <linux/ip.h>, <linux/udp.h> and <linux/tcp.h> as offsets
-- into a frame. The bit fields of `iphdr` and `tcphdr` are those of a little-endian host.
use file_system_homework.Base.{ℕ, ◌+◌, ◌*◌, ◌/◌, ◌%◌, List}
use file_system_homework.Packet.Bytes.{byte_at, load16, htons}

abbrev pub eth_hdr_size : ℕ
eth_hdr_size = 14

abbrev pub ip_hdr_size : ℕ
ip_hdr_size = 20

abbrev pub udp_hdr_size : ℕ
udp_hdr_size = 8

abbrev pub tcp_hdr_size : ℕ
tcp_hdr_size = 20

abbrev pub pseudo_hdr_size : ℕ
pseudo_hdr_size = 12

abbrev pub eth_p_ip : ℕ
eth_p_ip = 0x0800

abbrev pub eth_p_arp : ℕ
eth_p_arp = 0x0806

abbrev pub eth_p_rarp : ℕ
eth_p_rarp = 0x8035

abbrev pub ipproto_icmp : ℕ
ipproto_icmp = 1

abbrev pub ipproto_igmp : ℕ
ipproto_igmp = 2

abbrev pub ipproto_tcp : ℕ
ipproto_tcp = 6

abbrev pub ipproto_udp : ℕ
ipproto_udp = 17

-- `ntohs(*(unsigned short *)(buf + off))`
abbrev pub net16 : List ℕ → ℕ → ℕ
net16 buf off = htons (load16 buf off)

-- `*(unsigned int *)(buf + off)`
abbrev pub load32 : List ℕ → ℕ → ℕ
load32 buf off = load16 buf off + 65536 * load16 buf (off + 2)

abbrev pub eth_type : List ℕ → ℕ
eth_type buf = net16 buf 12

abbrev pub ip_version : List ℕ → ℕ
ip_version buf = byte_at buf 14 / 16

-- `ip->ihl * 4`
abbrev pub ip_hdr_len : List ℕ → ℕ
ip_hdr_len buf = byte_at buf 14 % 16 * 4

abbrev pub ip_tot_len : List ℕ → ℕ
ip_tot_len buf = net16 buf 16

abbrev pub ip_frag_off : List ℕ → ℕ
ip_frag_off buf = net16 buf 20

abbrev pub ip_protocol : List ℕ → ℕ
ip_protocol buf = byte_at buf 23

abbrev pub ip_saddr : List ℕ → ℕ
ip_saddr buf = load32 buf 26

abbrev pub ip_daddr : List ℕ → ℕ
ip_daddr buf = load32 buf 30
