-- ===== src/Packet/Capture/Kinds.antt =====
-- `run_mode1` against the kinds of the frames, where no frame shows what an earlier one left behind.
use file_system_homework.Base.{
  ℕ, zero, suc, ◌+◌, ◌*◌, ◌≤◌, ◌<◌, ◌≡◌, ◌≢◌, ◌∙◌, ap, ap₂, sym, refl, inl, inr, dec_lt, Bool-cases,
  ==_iff, arith, List, [], ◌∷◌, ◌==◌, ltb, if◌then◌else◌, length,
}
use file_system_homework.Packet.Bytes.{htons}
use file_system_homework.Packet.Frames.{
  buffer_size, receive, received, length-receive, byte_at-receive, received_whole,
}
use file_system_homework.Packet.Headers.{eth_type, ip_protocol}
use file_system_homework.Packet.Capture.{
  Received, failed, frame, Counts, no_counts, count_protocol, count_frame, count_loop, run_mode1,
  packet_num,
}
use file_system_homework.Packet.Capture.Totals.{consumed}

pub data Kind : Type 0 where
  cut arp rarp eth_other tcp udp icmp igmp ip_other : Kind

-- RFC 791's protocol numbers.
abbrev pub protocol_kind : ℕ → Kind
protocol_kind p =
    if p == 6
    then tcp
    else if p == 17
    then udp
    else if p == 1
    then icmp
    else if p == 2
    then igmp
    else ip_other

abbrev pub kind_of : ℕ → ℕ → ℕ → Kind
kind_of bytes type protocol =
    if ltb bytes 14
    then cut
    else if type == 0x0800
    then protocol_kind protocol
    else if type == 0x0806
    then arp
    else if type == 0x8035
    then rarp
    else eth_other

abbrev pub kind : List ℕ → Kind
kind bytes = kind_of (length bytes) (eth_type bytes) (ip_protocol bytes)

-- The counter of a kind.
abbrev pub counter : Kind → Counts → ℕ
counter cut c = 0
counter arp c = c.arp
counter rarp c = c.rarp
counter eth_other c = c.eth_others
counter tcp c = c.tcp
counter udp c = c.udp
counter icmp c = c.icmp
counter igmp c = c.igmp
counter ip_other c = c.ip_others

abbrev pub is_kind : Kind → Kind → ℕ
is_kind cut k = elim k [ cut ↦ 1 | _ ↦ 0 ]
is_kind arp k = elim k [ arp ↦ 1 | _ ↦ 0 ]
is_kind rarp k = elim k [ rarp ↦ 1 | _ ↦ 0 ]
is_kind eth_other k = elim k [ eth_other ↦ 1 | _ ↦ 0 ]
is_kind tcp k = elim k [ tcp ↦ 1 | _ ↦ 0 ]
is_kind udp k = elim k [ udp ↦ 1 | _ ↦ 0 ]
is_kind icmp k = elim k [ icmp ↦ 1 | _ ↦ 0 ]
is_kind igmp k = elim k [ igmp ↦ 1 | _ ↦ 0 ]
is_kind ip_other k = elim k [ ip_other ↦ 1 | _ ↦ 0 ]

pub number_of : Kind → List (List ℕ) → ℕ
number_of k [] = 0
number_of k (bytes ∷ rest) = is_kind k (kind bytes) + number_of k rest

-- Every frame fits the buffer, and an IPv4 frame reaches to its protocol field.
abbrev pub IsWhole : List (List ℕ) → Type 0
IsWhole [] = Unit {0}
IsWhole (bytes ∷ rest) =
    ((length bytes ≤ buffer_size) × (eth_type bytes ≡ 0x0800 → 24 ≤ length bytes)) × IsWhole rest

count_protocol-kind :
    (k : Kind) (protocol : ℕ) (c : Counts)
    → k ≢ cut
    → counter k (count_protocol protocol c) ≡ is_kind k (protocol_kind protocol) + counter k c
unfolding count_protocol
count_protocol-kind cut protocol c n = absurd (n refl)
count_protocol-kind _ protocol c n = ground arith

count_frame-kind_of :
    (k : Kind) (bytes : ℕ) (buffer : List ℕ) (c : Counts)
    → k ≢ cut
    → counter k (count_frame bytes buffer c)
      ≡ is_kind k (kind_of bytes (eth_type buffer) (ip_protocol buffer)) + counter k c
unfolding count_frame
count_frame-kind_of cut bytes buffer c n = absurd (n refl)
count_frame-kind_of k bytes buffer c n =
    ground (arith, count_protocol-kind k (ip_protocol buffer) (record c { ipv4 = c.ipv4 + 1 }))

kind_of_short : (n type protocol : ℕ) → n < 14 → kind_of n type protocol ≡ cut
kind_of_short n type protocol h = ground arith

kind_of_protocol : (n type p q : ℕ) → (type ≡ 0x0800 → p ≡ q) → kind_of n type p ≡ kind_of n type q
kind_of_protocol n type p q h = elim (Bool-cases (type == 0x0800)) [
  | inl ip ↦ ap (kind_of n type) (h ((==_iff type 0x0800).0 ip))
  | inr other ↦ rw other
]

-- The kind is read off the frame alone.
kind-receive :
    (bytes buffer : List ℕ)
    → length buffer ≡ buffer_size
    → length bytes ≤ buffer_size
    → (eth_type bytes ≡ 0x0800 → 24 ≤ length bytes)
    → kind_of
        (received bytes)
        (eth_type (receive bytes buffer))
        (ip_protocol (receive bytes buffer))
      ≡ kind bytes
kind-receive bytes buffer l f w = rw (received_whole bytes f) (elim (dec_lt (length bytes) 14) [
  | yes short ↦
      kind_of_short (length bytes) (eth_type (receive bytes buffer))
        (ip_protocol (receive bytes buffer)) short
      ∙ sym (kind_of_short (length bytes) (eth_type bytes) (ip_protocol bytes) short)
  | no long ↦
      ap (λ (t : ℕ). kind_of (length bytes) t (ip_protocol (receive bytes buffer)))
        (ap₂ (λ (a b : ℕ). htons (a + 256 * b)) (byte_at-receive bytes buffer 12 f l (omega arith))
          (byte_at-receive bytes buffer 13 f l (omega arith)))
      ∙ kind_of_protocol (length bytes) (eth_type bytes) (ip_protocol (receive bytes buffer))
          (ip_protocol bytes) (λ ip. byte_at-receive bytes buffer 23 f l (w ip))
])

count_loop-kind :
    (k : Kind) (rounds : ℕ) (buffer : List ℕ) (events : List Received) (c : Counts)
    → k ≢ cut
    → length buffer ≡ buffer_size
    → IsWhole (consumed rounds events)
    → counter k (count_loop rounds buffer events c).counts
      ≡ number_of k (consumed rounds events) + counter k c
unfolding count_loop number_of consumed
count_loop-kind k zero buffer events c n l w = omega arith
count_loop-kind k (suc rounds) buffer [] c n l w = omega arith
count_loop-kind k (suc rounds) buffer (failed ∷ rest) c n l w = omega arith
count_loop-kind k (suc rounds) buffer (frame bytes ∷ rest) c n l w =
    let now = count_frame (received bytes) (receive bytes buffer) c in
    omega (
      arith,
      count_loop-kind k rounds (receive bytes buffer) rest now n (length-receive bytes buffer ∙ l)
          (w.1),
      count_frame-kind_of k (received bytes) (receive bytes buffer) c n,
      ap (is_kind k) (kind-receive bytes buffer l (w.0.0) (w.0.1)),
    )

counter_zero : (k : Kind) → counter k no_counts ≡ 0
counter_zero cut = refl
counter_zero _ = refl

-- Where every frame fits the buffer and every IPv4 frame reaches to its protocol field, each counter of
-- `run_mode1` but `ipv4_count` is the number of frames of its kind among the first 200, whatever the
-- buffer held before.
pub run_mode1-number_of :
    (k : Kind) (buffer : List ℕ) (events : List Received)
    → k ≢ cut
    → length buffer ≡ buffer_size
    → IsWhole (consumed packet_num events)
    → counter k (run_mode1 buffer events).counts ≡ number_of k (consumed packet_num events)
unfolding run_mode1
run_mode1-number_of k buffer events n l w =
    omega (arith, count_loop-kind k packet_num buffer events no_counts n l w, counter_zero k)
