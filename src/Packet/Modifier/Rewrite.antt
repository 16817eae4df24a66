-- ===== src/Packet/Modifier/Rewrite.antt =====
-- What `rewrite` leaves in the buffer: valid checksums, and every other byte of the headers.
use file_system_homework.Base.{
  ℕ, zero, suc, ◌+◌, ◌*◌, ◌/◌, ◌%◌, ◌^◌, ◌≤◌, ◌<◌, ◌≡◌, inr, ap, ap₂, ◌∙◌, arith, List, [], ◌∷◌,
  ◌++◌, length, slice, length-append, length-slice,
}
use file_system_homework.Packet.Bytes.{
  load16, store16, htons, IsBytes, IsBytes-store16, IsBytes-slice, length-store16, slice-store16_in,
  slice-store16_out, load16-store16, IsBytes-append, all_bytes-IsBytes,
}
use file_system_homework.Packet.Checksum.{checksum}
use file_system_homework.Packet.Checksum.Laws.{checksum-store16}
use file_system_homework.Packet.Modifier.{
  Segment, pseudo_header, transport_checksum, renew_ip_check, renew_segment_check,
}

-- A word stored in the second of two blocks.
store16-append :
    (xs ys : List ℕ) (n i v : ℕ)
    → length xs ≡ n
    → xs ++ store16 ys i v ≡ store16 (xs ++ ys) (n + i) v
store16-append [] ys n i v h = let e : n + i ≡ i = omega arith in rw e
store16-append (x ∷ xs) ys zero i v h = absurd (omega arith)
store16-append (x ∷ xs) ys (suc n) i v h =
    let e : suc n + i ≡ suc (n + i) = omega arith in
    let e' : suc (n + i) + 1 ≡ suc (n + i + 1) = omega arith in
    rw (e, e') (ap (◌∷◌ x) (store16-append xs ys n i v (omega arith)))

-- Clearing a word, at an even offset of a block inside the buffer, and storing the block's checksum
-- there makes the block check.
block_check :
    (start len k : ℕ) (buffer : List ℕ)
    → IsBytes buffer
    → len < 2 ^ 31
    → start + len ≤ length buffer
    → 2 * k + 1 < len
    → let cleared = store16 buffer (start + 2 * k) 0 in
      checksum
        (slice start len (store16 cleared (start + 2 * k) (checksum (slice start len cleared))))
      ≡ 0
block_check start len k buffer b short fits inside =
    ap checksum (slice-store16_in start len cleared (2 * k) (checksum block) (omega arith))
    ∙ checksum-store16 k block (block_bytes, rw length_block short) (rw length_block inside) zeroed
  where
    cleared : List ℕ
    cleared = store16 buffer (start + 2 * k) 0

    block : List ℕ
    block = slice start len cleared

    block_bytes : IsBytes block
    block_bytes = IsBytes-slice start len cleared (IsBytes-store16 buffer (start + 2 * k) 0 b)

    length_block : length block ≡ len
    length_block =
        length-slice start len cleared (rw (length-store16 buffer (start + 2 * k) 0) fits)

    zeroed : load16 block (2 * k) ≡ 0
    zeroed = rw (slice-store16_in start len buffer (2 * k) 0 (omega arith)) (
        load16-store16 (slice start len buffer) (2 * k) 0
          (rw (length-slice start len buffer fits) (omega arith)) (omega arith))

-- The IP header checks once its `check` field is renewed.
pub renew_ip_check-valid :
    (n : ℕ) (buffer : List ℕ)
    → IsBytes buffer
    → 12 ≤ n
    → n < 2 ^ 31
    → 14 + n ≤ length buffer
    → checksum (slice 14 n (renew_ip_check n buffer)) ≡ 0
unfolding renew_ip_check
renew_ip_check-valid n buffer b lo hi fits = block_check 14 n 5 buffer b hi fits (omega arith)

-- The pseudo header reads the addresses alone.
length-pseudo_header :
    (buffer : List ℕ) (len protocol : ℕ)
    → 34 ≤ length buffer
    → length (pseudo_header buffer len protocol) ≡ 12
unfolding pseudo_header
length-pseudo_header buffer len protocol h = ground (
  arith,
  length-append (slice 26 4 buffer)
      (slice 30 4 buffer ++ 0 ∷ protocol ∷ htons len % 256 ∷ htons len / 256 ∷ []),
  length-append (slice 30 4 buffer) (0 ∷ protocol ∷ htons len % 256 ∷ htons len / 256 ∷ []),
  length-slice 26 4 buffer,
  length-slice 30 4 buffer,
)

pseudo_header-store16 :
    (buffer : List ℕ) (len protocol j v : ℕ)
    → 34 ≤ j
    → pseudo_header (store16 buffer j v) len protocol ≡ pseudo_header buffer len protocol
unfolding pseudo_header
pseudo_header-store16 buffer len protocol j v h =
    ap₂ (λ (a b : List ℕ). a ++ (b ++ 0 ∷ protocol ∷ htons len % 256 ∷ htons len / 256 ∷ []))
      (slice-store16_out 26 4 buffer j v (inr (omega arith)))
      (slice-store16_out 30 4 buffer j v (inr h))

IsBytes-pseudo_header :
    (buffer : List ℕ) (len protocol : ℕ)
    → IsBytes buffer
    → protocol < 256
    → IsBytes (pseudo_header buffer len protocol)
unfolding pseudo_header
IsBytes-pseudo_header buffer len protocol b h =
    IsBytes-append (slice 26 4 buffer) _ (IsBytes-slice 26 4 buffer b) (
      IsBytes-append (slice 30 4 buffer) _ (IsBytes-slice 30 4 buffer b)
        (all_bytes-IsBytes (0 ∷ protocol ∷ htons len % 256 ∷ htons len / 256 ∷ []) (ground arith)))

transport_checksum-short :
    (buffer : List ℕ) (start len protocol : ℕ)
    → len ≤ 65524
    → transport_checksum buffer start len protocol
      ≡ checksum (pseudo_header buffer len protocol ++ slice start len buffer)
unfolding transport_checksum
transport_checksum-short buffer start len protocol h = ground arith

-- What `transport_checksum` sums, and how a store to the segment's header shows in it.
module _ (s : Segment) where
  abbrev summed : List ℕ → List ℕ
  summed buffer = pseudo_header buffer s.total_len s.protocol ++ slice s.start s.total_len buffer

  summed-store16 :
      (buffer : List ℕ) (v : ℕ)
      → 34 ≤ s.start
      → s.check_at + 1 < s.total_len
      → 34 ≤ length buffer
      → summed (store16 buffer (s.start + s.check_at) v)
        ≡ store16 (summed buffer) (12 + s.check_at) v
  summed-store16 buffer v far inside long =
      ap₂ ◌++◌
        (pseudo_header-store16 buffer s.total_len s.protocol (s.start + s.check_at) v (omega arith))
        (slice-store16_in s.start s.total_len buffer s.check_at v inside)
      ∙ store16-append (pseudo_header buffer s.total_len s.protocol)
          (slice s.start s.total_len buffer) 12 s.check_at v
          (length-pseudo_header buffer s.total_len s.protocol long)

  length-summed :
      (buffer : List ℕ)
      → 34 ≤ s.start
      → s.start + s.total_len ≤ length buffer
      → length (summed buffer) ≡ 12 + s.total_len
  length-summed buffer far fits = omega (
    arith,
    length-pseudo_header buffer s.total_len s.protocol (omega arith),
    length-append (pseudo_header buffer s.total_len s.protocol) (slice s.start s.total_len buffer),
    length-slice s.start s.total_len buffer fits,
  )

-- The segment checks against the pseudo header once its `check` field is renewed.
pub renew_segment_check-valid :
    (s : Segment) (k : ℕ) (buffer : List ℕ)
    → IsBytes buffer
    → 34 ≤ s.start
    → 12 + s.check_at ≡ 2 * k
    → s.check_at + 1 < s.total_len
    → s.total_len ≤ 65524
    → s.start + s.total_len ≤ length buffer
    → s.protocol < 256
    → transport_checksum (renew_segment_check s buffer) s.start s.total_len s.protocol ≡ 0
unfolding renew_segment_check
renew_segment_check-valid s k buffer b far even inside short fits small =
    rw (transport_checksum-short cleared s.start s.total_len s.protocol short) (
      transport_checksum-short (store16 cleared at (checksum (summed s cleared))) s.start
        s.total_len s.protocol short
      ∙ ap checksum
          (summed-store16 s cleared (checksum (summed s cleared)) far inside (omega (arith, long)))
      ∙ checks)
  where
    at : ℕ
    at = s.start + s.check_at

    cleared : List ℕ
    cleared = store16 buffer at 0

    long : length cleared ≡ length buffer
    long = length-store16 buffer at 0

    block : List ℕ
    block = summed s cleared

    length_block : length block ≡ 12 + s.total_len
    length_block = length-summed s cleared far (rw long fits)

    block_bytes : IsBytes block
    block_bytes =
        IsBytes-append (pseudo_header cleared s.total_len s.protocol) _
          (IsBytes-pseudo_header cleared s.total_len s.protocol (IsBytes-store16 buffer at 0 b)
            small)
          (IsBytes-slice s.start s.total_len cleared (IsBytes-store16 buffer at 0 b))

    zeroed : load16 block (12 + s.check_at) ≡ 0
    zeroed = rw (summed-store16 s buffer 0 far inside (omega arith)) (
        load16-store16 (summed s buffer) (12 + s.check_at) 0
          (omega (arith, length-summed s buffer far fits)) (omega arith))

    checks : checksum (store16 block (12 + s.check_at) (checksum block)) ≡ 0
    checks = rw even (
        checksum-store16 k block (block_bytes, omega (arith, length_block))
          (omega (arith, length_block)) (rw even at zeroed))
