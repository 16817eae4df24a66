-- ===== src/Packet/Capture/ReadsFrame.antt =====
-- The checks of `run_mode2` and `run_mode3` on the buffer and on the frame alone.
use file_system_homework.Base.{
  ℕ, ◌+◌, ◌*◌, ◌%◌, ◌≤◌, ◌<◌, ◌≡◌, ◌∙◌, ap, ap₂, get_or_ext, length-slice, get_or-slice, arith,
  Bool, true, false, List, Option, some, none, length, slice, Bool-cases, dec_lt, not, ◌||◌, sym,
  inl, inr, guard, ◌>>◌, ◌&&◌, leb, ◌==◌, if◌then◌else◌,
}
use file_system_homework.Packet.Bytes.{byte_at, htons, load16}
use file_system_homework.Packet.Frames.{
  buffer_size, receive, received, length-receive, byte_at-receive, received_whole,
}
use file_system_homework.Packet.Headers.{eth_type, ip_protocol, ip_hdr_len, ip_saddr, ip_daddr}
use file_system_homework.Packet.Capture.{Report, report, accept_mode2, accept_mode3}

-- A check that looks at no byte behind the frame.
abbrev pub ReadsFrame : (ℕ → List ℕ → Option Report) → Type 0
ReadsFrame accept =
    (bytes buffer : List ℕ)
    → length bytes ≤ buffer_size
    → length buffer ≡ buffer_size
    → accept (received bytes) (receive bytes buffer) ≡ accept (length bytes) bytes

-- What the checks look at, of a frame with a whole IP header.
record IsSame (n : ℕ) (a b : List ℕ) : Type 0 where
  type : eth_type a ≡ eth_type b
  protocol : ip_protocol a ≡ ip_protocol b
  hdr_len : ip_hdr_len a ≡ ip_hdr_len b
  saddr : ip_saddr a ≡ ip_saddr b
  daddr : ip_daddr a ≡ ip_daddr b
  ports : 14 + ip_hdr_len b + 8 ≤ n → report a ≡ report b

chain_lem :
    (a b c d e f : Bool) (r : Report)
    → (guard a >> (guard b >> (guard c >> (guard d >> (guard e >> (guard f >> some r))))))
      ≡ (if a && b && c && d && e && f then some r else none)
chain_lem a b c d e f r = ground arith

-- The checks of both modes as one test of the fields; they end with the room for a header of `size`.
checks : (ℕ → ℕ → Bool) → ℕ → ℕ → ℕ → ℕ → ℕ → ℕ → ℕ → ℕ → Bool
checks wanted proto size n type p s d hl =
    leb 14 n && type == 0x0800 && leb 34 n && p == proto && wanted s d && leb (14 + hl + size) n

abbrev checks_of : (ℕ → ℕ → Bool) → ℕ → ℕ → ℕ → List ℕ → Bool
checks_of wanted proto size n a =
    checks wanted proto size n (eth_type a) (ip_protocol a) (ip_saddr a) (ip_daddr a) (ip_hdr_len a)

checks-room :
    (wanted : ℕ → ℕ → Bool) (proto size n t p s d hl : ℕ)
    → 8 ≤ size
    → checks wanted proto size n t p s d hl ≡ true
    → (34 ≤ n) × (14 + hl + 8 ≤ n)
unfolding checks
checks-room wanted proto size n t p s d hl big h = ground arith

checks_short :
    (wanted : ℕ → ℕ → Bool) (proto size n t p s d hl : ℕ)
    → n < 34
    → checks wanted proto size n t p s d hl ≡ false
unfolding checks
checks_short wanted proto size n t p s d hl h = ground arith

module _ (wanted : ℕ → ℕ → Bool) (proto size n : ℕ) where
  abbrev passes : List ℕ → Bool
  passes a =
      checks wanted proto size n (eth_type a) (ip_protocol a) (ip_saddr a) (ip_daddr a)
        (ip_hdr_len a)

  abbrev result : List ℕ → Option Report
  result a = if passes a then some (report a) else none

  passes-same : (a b : List ℕ) → IsSame n a b → passes a ≡ passes b
  passes-same a b h i =
      checks wanted proto size n (h.type i) (h.protocol i) (h.saddr i) (h.daddr i) (h.hdr_len i)

  result_short : (a : List ℕ) → n < 34 → result a ≡ none
  result_short a h = rw (
      checks_short wanted proto size n (eth_type a) (ip_protocol a) (ip_saddr a) (ip_daddr a)
        (ip_hdr_len a) h)

  result-same : (a b : List ℕ) → 8 ≤ size → IsSame n a b → result a ≡ result b
  result-same a b big h = elim (Bool-cases (passes b)) [
    | inl e ↦
        rw (passes-same a b h ∙ e, e)
          (ap some (
            h.ports
              (checks-room wanted proto size n (eth_type b) (ip_protocol b) (ip_saddr b)
                (ip_daddr b) (ip_hdr_len b) big e).1))
    | inr e ↦ rw (passes-same a b h ∙ e, e)
  ]

-- Two buffers that agree on the frame give the same result.
result-agree :
    (wanted : ℕ → ℕ → Bool) (proto size n : ℕ) (a b : List ℕ)
    → 8 ≤ size
    → (34 ≤ n → IsSame n a b)
    → result wanted proto size n a ≡ result wanted proto size n b
result-agree wanted proto size n a b big h = elim (dec_lt n 34) [
  | yes short ↦
      result_short wanted proto size n a short ∙ sym (result_short wanted proto size n b short)
  | no long ↦ result-same wanted proto size n a b big (h (omega arith))
]

accept_mode2-result :
    (my_ip n : ℕ) (a : List ℕ) → accept_mode2 my_ip n a ≡ result (λ s d. d == my_ip) 17 8 n a
unfolding accept_mode2 checks
accept_mode2-result my_ip n a =
    chain_lem (leb 14 n) (eth_type a == 0x0800) (leb 34 n) (ip_protocol a == 17)
      (ip_daddr a == my_ip) (leb (14 + ip_hdr_len a + 8) n) (report a)

accept_mode3-result :
    (my_ip n : ℕ) (a : List ℕ)
    → accept_mode3 my_ip n a ≡ result (λ s d. not (s == my_ip || d == my_ip)) 6 20 n a
unfolding accept_mode3 checks
accept_mode3-result my_ip n a =
    chain_lem (leb 14 n) (eth_type a == 0x0800) (leb 34 n) (ip_protocol a == 6)
      (not (ip_saddr a == my_ip || ip_daddr a == my_ip)) (leb (14 + ip_hdr_len a + 20) n) (report a)

-- What a frame with a whole IP header put into the buffer reads the same there.
module _ (bytes buffer : List ℕ) (f : length bytes ≤ buffer_size) (l : length buffer ≡ buffer_size)
    (long : 34 ≤ length bytes) where
  at : (j : ℕ) → j < length bytes → byte_at (receive bytes buffer) j ≡ byte_at bytes j
  at j h = byte_at-receive bytes buffer j f l h

  word : (j : ℕ) → j + 1 < length bytes → load16 (receive bytes buffer) j ≡ load16 bytes j
  word j h = ap₂ (λ (a b : ℕ). a + 256 * b) (at j (omega arith)) (at (j + 1) h)

  double_word :
      (j : ℕ)
      → j + 3 < length bytes
      → load16 (receive bytes buffer) j + 65536 * load16 (receive bytes buffer) (j + 2)
        ≡ load16 bytes j + 65536 * load16 bytes (j + 2)
  double_word j h =
      ap₂ (λ (a b : ℕ). a + 65536 * b) (word j (omega arith)) (word (j + 2) (omega arith))

  part : (lo n : ℕ) → lo + n ≤ length bytes → slice lo n (receive bytes buffer) ≡ slice lo n bytes
  part lo n h =
      get_or_ext 0 (slice lo n (receive bytes buffer)) (slice lo n bytes)
        (mine ∙ sym (length-slice lo n bytes h))
        (λ i inside.
          get_or-slice lo n (receive bytes buffer) i 0 (omega (arith, mine))
          ∙ at (lo + i) (omega (arith, mine))
          ∙ sym (get_or-slice lo n bytes i 0 (omega (arith, mine))))
    where
      mine : length (slice lo n (receive bytes buffer)) ≡ n
      mine = length-slice lo n (receive bytes buffer) (omega (arith, length-receive bytes buffer))

  same_hdr_len : ip_hdr_len (receive bytes buffer) ≡ ip_hdr_len bytes
  same_hdr_len = ap (λ (b : ℕ). b % 16 * 4) (at 14 (omega arith))

  port :
      (k : ℕ)
      → 14 + ip_hdr_len bytes + k + 1 < length bytes
      → htons (load16 (receive bytes buffer) (14 + ip_hdr_len (receive bytes buffer) + k))
        ≡ htons (load16 bytes (14 + ip_hdr_len bytes + k))
  port k h =
      ap (λ (hl : ℕ). htons (load16 (receive bytes buffer) (14 + hl + k))) same_hdr_len
      ∙ ap htons (word (14 + ip_hdr_len bytes + k) h)

  same_ports :
      14 + ip_hdr_len bytes + 8 ≤ length bytes → report (receive bytes buffer) ≡ report bytes
  same_ports room i = record {
    source_mac = part 6 6 (omega arith) i;
    dest_mac = part 0 6 (omega arith) i;
    src_ip = double_word 26 (omega arith) i;
    dst_ip = double_word 30 (omega arith) i;
    src_port = source i;
    dst_port = port 2 (omega arith) i;
  }
    where
      source :
          htons (load16 (receive bytes buffer) (14 + ip_hdr_len (receive bytes buffer)))
          ≡ htons (load16 bytes (14 + ip_hdr_len bytes))
      source =
          ap (λ (hl : ℕ). htons (load16 (receive bytes buffer) (14 + hl))) same_hdr_len
          ∙ ap htons (word (14 + ip_hdr_len bytes) (omega arith))

  receive-IsSame : IsSame (length bytes) (receive bytes buffer) bytes
  receive-IsSame = record {
    type = ap htons (word 12 (omega arith));
    protocol = at 23 (omega arith);
    hdr_len = same_hdr_len;
    saddr = double_word 26 (omega arith);
    daddr = double_word 30 (omega arith);
    ports = same_ports;
  }

pub accept_mode2-ReadsFrame : (my_ip : ℕ) → ReadsFrame (accept_mode2 my_ip)
accept_mode2-ReadsFrame my_ip bytes buffer f l = rw (received_whole bytes f) (
    accept_mode2-result my_ip (length bytes) (receive bytes buffer)
    ∙ result-agree (λ s d. d == my_ip) 17 8 (length bytes) (receive bytes buffer) bytes
        (omega arith) (receive-IsSame bytes buffer f l)
    ∙ sym (accept_mode2-result my_ip (length bytes) bytes))

pub accept_mode3-ReadsFrame : (my_ip : ℕ) → ReadsFrame (accept_mode3 my_ip)
accept_mode3-ReadsFrame my_ip bytes buffer f l = rw (received_whole bytes f) (
    accept_mode3-result my_ip (length bytes) (receive bytes buffer)
    ∙ result-agree (λ s d. not (s == my_ip || d == my_ip)) 6 20 (length bytes)
        (receive bytes buffer) bytes (omega arith) (receive-IsSame bytes buffer f l)
    ∙ sym (accept_mode3-result my_ip (length bytes) bytes))
