-- ===== src/Packet/Checksum/Tests.antt =====
-- A well-known IP header, and the theorems at it.
use file_system_homework.Base.{ℕ, ◌+◌, ◌-◌, ◌≡◌, ◌≢◌, refl, arith, List, [], ◌∷◌}
use file_system_homework.Packet.Bytes.{store16, all_bytes-IsBytes}
use file_system_homework.Packet.Checksum.{checksum, sum_words, fold_carries}
use file_system_homework.Packet.Checksum.Laws.{
  IsBlock, ones_sum, checksum-eq-ones_sum, checksum-store16, checksum_detects,
}

-- 4500 0073 0000 4000 4011 0000 c0a8 0001 c0a8 00c7, with no checksum yet.
abbrev header : List ℕ
header =
    0x45 ∷ 0x00 ∷ 0x00 ∷ 0x73 ∷ 0x00 ∷ 0x00 ∷ 0x40 ∷ 0x00 ∷ 0x40 ∷ 0x11 ∷ 0x00 ∷ 0x00 ∷ 0xc0 ∷ 0xa8
    ∷ 0x00 ∷ 0x01 ∷ 0xc0 ∷ 0xa8 ∷ 0x00 ∷ 0xc7 ∷ []

-- The same with its checksum b861.
abbrev checked_header : List ℕ
checked_header = store16 header 10 0x61b8

checksum-header : checksum header ≡ 0x61b8
unfolding checksum sum_words fold_carries
checksum-header = refl

checksum-checked_header : checksum checked_header ≡ 0
unfolding checksum sum_words fold_carries
checksum-checked_header = refl

odd_block : checksum (1 ∷ 2 ∷ 3 ∷ []) ≡ 65535 - (513 + 3)
unfolding checksum sum_words fold_carries
odd_block = refl

header-IsBlock : IsBlock header
header-IsBlock = (all_bytes-IsBytes header refl, omega arith)

checked_header-IsBlock : IsBlock checked_header
checked_header-IsBlock = (all_bytes-IsBytes checked_header refl, omega arith)

checksum-eq-ones_sum_example : checksum header ≡ 65535 - ones_sum header
checksum-eq-ones_sum_example = checksum-eq-ones_sum header header-IsBlock

checksum-store16_example : checksum (store16 header 10 (checksum header)) ≡ 0
checksum-store16_example = checksum-store16 5 header header-IsBlock (omega arith) refl

-- A time to live of 63 with an old checksum.
checksum_detects_example : checksum (store16 checked_header 8 0x113f) ≢ 0
checksum_detects_example =
    checksum_detects 4 checked_header 0x113f checked_header-IsBlock (omega arith) (omega arith)
      checksum-checked_header (omega arith)
