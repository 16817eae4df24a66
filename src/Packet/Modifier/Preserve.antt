-- ===== src/Packet/Modifier/Preserve.antt =====
-- Which bytes `rewrite` leaves alone, and that the checks read only those.
use file_system_homework.Base.{
  ℕ, ◌+◌, ◌*◌, ◌≤◌, ◌<◌, ◌≡◌, ◌⊎◌, inl, inr, refl, ap, ◌∙◌, arith, List, length, slice, get_or,
}
use file_system_homework.Packet.Bytes.{
  byte_at, store16, IsBytes, IsBytes-store16, length-store16, byte_at-store16, slice-store16_out,
}
use file_system_homework.Packet.Checksum.{checksum}
use file_system_homework.Packet.Headers.{ip_protocol}
use file_system_homework.Packet.Modifier.{
  IpPart, Segment, payload_len, modify_payload_same_length, accept_ip, accept_segment, accept_udp,
  accept_tcp, transport_checksum, modify_text, renew_ip_check, renew_segment_check, rewrite,
}
use file_system_homework.Packet.Modifier.Guards.{IsIpPart, IsSegment}
use file_system_homework.Packet.Modifier.Rewrite.{renew_ip_check-valid, renew_segment_check-valid}
use file_system_homework.Packet.Modifier.Payload.{
  length-modify_payload, IsBytes-modify_payload, byte_at-modify_payload_out,
  byte_at-modify_payload_in,
}

-- The words that the two `check` fields take.
abbrev ip_check : ℕ → List ℕ → ℕ
ip_check n buffer = checksum (slice 14 n (store16 buffer 24 0))

abbrev segment_check : Segment → List ℕ → ℕ
segment_check s buffer =
    transport_checksum (store16 buffer (s.start + s.check_at) 0) s.start s.total_len s.protocol

module _ (n : ℕ) (buffer : List ℕ) where
  length-renew_ip_check : length (renew_ip_check n buffer) ≡ length buffer
  unfolding renew_ip_check
  length-renew_ip_check =
      length-store16 (store16 buffer 24 0) 24 (ip_check n buffer) ∙ length-store16 buffer 24 0

  IsBytes-renew_ip_check : IsBytes buffer → IsBytes (renew_ip_check n buffer)
  unfolding renew_ip_check
  IsBytes-renew_ip_check b =
      IsBytes-store16 (store16 buffer 24 0) 24 (ip_check n buffer) (IsBytes-store16 buffer 24 0 b)

  byte_at-renew_ip_check :
      (j : ℕ) → (j < 24) ⊎ (25 < j) → byte_at (renew_ip_check n buffer) j ≡ byte_at buffer j
  unfolding renew_ip_check
  byte_at-renew_ip_check j h =
      byte_at-store16 (store16 buffer 24 0) 24 (ip_check n buffer) j h
      ∙ byte_at-store16 buffer 24 0 j h

module _ (s : Segment) (buffer : List ℕ) where
  abbrev at : ℕ
  at = s.start + s.check_at

  length-renew_segment_check : length (renew_segment_check s buffer) ≡ length buffer
  unfolding renew_segment_check
  length-renew_segment_check =
      length-store16 (store16 buffer at 0) at (segment_check s buffer) ∙ length-store16 buffer at 0

  IsBytes-renew_segment_check : IsBytes buffer → IsBytes (renew_segment_check s buffer)
  unfolding renew_segment_check
  IsBytes-renew_segment_check b =
      IsBytes-store16 (store16 buffer at 0) at (segment_check s buffer)
        (IsBytes-store16 buffer at 0 b)

  byte_at-renew_segment_check :
      (j : ℕ)
      → (j < at) ⊎ (at + 1 < j)
      → byte_at (renew_segment_check s buffer) j ≡ byte_at buffer j
  unfolding renew_segment_check
  byte_at-renew_segment_check j h =
      byte_at-store16 (store16 buffer at 0) at (segment_check s buffer) j h
      ∙ byte_at-store16 buffer at 0 j h

  slice-renew_segment_check :
      (lo n : ℕ) → lo + n ≤ at → slice lo n (renew_segment_check s buffer) ≡ slice lo n buffer
  unfolding renew_segment_check
  slice-renew_segment_check lo n h =
      slice-store16_out lo n (store16 buffer at 0) at (segment_check s buffer) (inr h)
      ∙ slice-store16_out lo n buffer at 0 (inr h)

module _ (ip : IpPart) (s : Segment) (buffer : List ℕ) where
  -- The buffer after `modify_payload_same_length`, and after the IP checksum.
  abbrev modified : List ℕ
  modified = modify_payload_same_length (s.start + s.header_len) (payload_len s) buffer

  abbrev ip_renewed : List ℕ
  ip_renewed = renew_ip_check ip.hdr_len modified

  length-ip_renewed : length ip_renewed ≡ length buffer
  length-ip_renewed =
      length-renew_ip_check ip.hdr_len modified
      ∙ length-modify_payload (s.start + s.header_len) (payload_len s) buffer

  IsBytes-ip_renewed : IsBytes buffer → IsBytes ip_renewed
  IsBytes-ip_renewed b =
      IsBytes-renew_ip_check ip.hdr_len modified
        (IsBytes-modify_payload (s.start + s.header_len) (payload_len s) buffer b)

  pub length-rewrite : length (rewrite ip s buffer) ≡ length buffer
  unfolding rewrite
  length-rewrite = length-renew_segment_check s ip_renewed ∙ length-ip_renewed

  pub IsBytes-rewrite : IsBytes buffer → IsBytes (rewrite ip s buffer)
  unfolding rewrite
  IsBytes-rewrite b = IsBytes-renew_segment_check s ip_renewed (IsBytes-ip_renewed b)

-- Both checksums of a rewritten frame are right: storing the second one leaves the IP header alone.
module _ (bytes port : ℕ) (buffer : List ℕ) (ip : IpPart) (s : Segment) (b : IsBytes buffer)
    (whole : bytes ≤ length buffer) (i : IsIpPart bytes buffer ip)
    (g : IsSegment port buffer ip s) where
  bounds : record {
    hdr : ip.hdr_len ≤ 60;
    total : ip.total_len < 65536;
    fits : 14 + ip.total_len ≤ length buffer;
    far : 14 + ip.hdr_len ≤ s.start;
    short : s.total_len ≤ 65515;
    check : s.check_at + 2 ≤ s.total_len;
    ends : s.start + s.total_len ≤ length buffer;
  }
  bounds = ground (arith, i.hdr_len, i.total_len)

  pub rewrite-ip_valid : checksum (slice 14 ip.hdr_len (rewrite ip s buffer)) ≡ 0
  unfolding rewrite
  rewrite-ip_valid =
      ap checksum (
        slice-renew_segment_check s (ip_renewed ip s buffer) 14 ip.hdr_len
          (omega (arith, bounds.far)))
      ∙ renew_ip_check-valid ip.hdr_len (modified ip s buffer)
          (IsBytes-modify_payload (s.start + s.header_len) (payload_len s) buffer b)
          (omega (arith, i.min_len)) (omega (arith, bounds.hdr))
          (omega (
            arith,
            length-modify_payload (s.start + s.header_len) (payload_len s) buffer,
            bounds.fits,
            i.ordered,
          ))

  pub rewrite-segment_valid :
      transport_checksum (rewrite ip s buffer) s.start s.total_len s.protocol ≡ 0
  unfolding rewrite
  rewrite-segment_valid = elim g.check_at [
    | inl (udp, c) ↦ at_word 9 (omega arith) (omega arith)
    | inr (tcp, c) ↦ at_word 14 (omega arith) (omega arith)
  ]
    where
      at_word :
          (k : ℕ)
          → 12 + s.check_at ≡ 2 * k
          → s.protocol < 256
          → transport_checksum
              (renew_segment_check s (ip_renewed ip s buffer))
              s.start
              s.total_len
              s.protocol
            ≡ 0
      at_word k even small =
          renew_segment_check-valid s k (ip_renewed ip s buffer) (IsBytes-ip_renewed ip s buffer b)
            (omega (arith, bounds.far, i.min_len)) even (omega (arith, bounds.check))
            (omega (arith, bounds.short))
            (omega (arith, bounds.ends, length-ip_renewed ip s buffer)) small

-- A byte of neither `check` field and not of the payload.
pub record IsKept (s : Segment) (j : ℕ) : Type 0 where
  pub not_ip_check : (j < 24) ⊎ (25 < j)
  pub not_check : (j < s.start + s.check_at) ⊎ (s.start + s.check_at + 1 < j)
  pub not_payload : (j < s.start + s.header_len) ⊎ (s.start + s.header_len + payload_len s ≤ j)

pub byte_at-rewrite :
    (ip : IpPart) (s : Segment) (buffer : List ℕ) (j : ℕ)
    → IsKept s j
    → byte_at (rewrite ip s buffer) j ≡ byte_at buffer j
unfolding rewrite
byte_at-rewrite ip s buffer j k =
    byte_at-renew_segment_check s (ip_renewed ip s buffer) j k.not_check
    ∙ byte_at-renew_ip_check ip.hdr_len (modified ip s buffer) j k.not_ip_check
    ∙ byte_at-modify_payload_out (s.start + s.header_len) (payload_len s) buffer j k.not_payload

pub byte_at-rewrite_payload :
    (bytes port : ℕ) (buffer : List ℕ) (ip : IpPart) (s : Segment)
    → bytes ≤ length buffer
    → IsIpPart bytes buffer ip
    → IsSegment port buffer ip s
    → (j : ℕ) → j < payload_len s
    → byte_at (rewrite ip s buffer) (s.start + s.header_len + j) ≡ get_or modify_text j b' '
unfolding rewrite
byte_at-rewrite_payload bytes port buffer ip s whole i g j h =
    byte_at-renew_segment_check s (ip_renewed ip s buffer) (s.start + s.header_len + j)
      (inr (omega (arith, g.check_inside)))
    ∙ byte_at-renew_ip_check ip.hdr_len (modified ip s buffer) (s.start + s.header_len + j)
        (inr (omega (arith, g.start, i.min_len)))
    ∙ byte_at-modify_payload_in (s.start + s.header_len) (payload_len s) buffer j h
        (omega (arith, g.start, g.inside, g.payload, i.inside))

-- The checks read the header fields and nothing else.
pub accept_ip_ext :
    (bytes : ℕ) (a b : List ℕ)
    → ((j : ℕ) → j < 24 → byte_at a j ≡ byte_at b j)
    → accept_ip bytes a ≡ accept_ip bytes b
unfolding accept_ip
accept_ip_ext bytes a b h = ground (
  arith,
  h 12 (omega arith),
  h 13 (omega arith),
  h 14 (omega arith),
  h 16 (omega arith),
  h 17 (omega arith),
  h 20 (omega arith),
  h 21 (omega arith),
)

pub accept_segment_ext :
    (port : ℕ) (a b : List ℕ) (ip : IpPart)
    → ((j : ℕ) → j < 24 → byte_at a j ≡ byte_at b j)
    → ((j : ℕ)
        → (j < 6) ⊎ ((j ≡ 12) × (ip_protocol b ≡ 6))
        → byte_at a (14 + ip.hdr_len + j) ≡ byte_at b (14 + ip.hdr_len + j))
    → accept_segment port a ip ≡ accept_segment port b ip
unfolding accept_segment accept_udp accept_tcp
accept_segment_ext port a b ip h g = ground (
  arith,
  h 23 (omega arith),
  g 2 (omega arith),
  g 3 (omega arith),
  g 4 (omega arith),
  g 5 (omega arith),
  λ (tcp : ip_protocol b ≡ 6). g 12 (inr (refl, tcp)),
)
