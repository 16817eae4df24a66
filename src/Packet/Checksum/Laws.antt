-- ===== src/Packet/Checksum/Laws.antt =====
-- What `checksum` computes, and what a receiver's check of it finds.
use file_system_homework.Base.{
  ℕ, suc, ◌+◌, ◌-◌, ◌*◌, ◌%◌, ◌^◌, ◌<◌, ◌≡◌, ◌≢◌, arith, List, [], ◌∷◌, length, ltb, if◌then◌else◌,
}
use file_system_homework.Packet.Bytes.{load16, store16, IsBytes, IsBytes-store16, length-store16}
use file_system_homework.Packet.Checksum.{checksum}
use file_system_homework.Packet.Checksum.Fold.{IsFolded, fold_carries-IsFolded}
use file_system_homework.Packet.Checksum.Words.{sum16, sum_words-eq-sum16, sum16-le, sum16-store16}

-- A length is an `int`.
abbrev pub IsBlock : List ℕ → Type 0
IsBlock buf = IsBytes buf × (length buf < 2 ^ 31)

-- `r` is the complement of a number with the same remainder by 65535 as the sum of the words.
pub record IsChecksum (total c : ℕ) : Type 0 where
  pub fits : c < 65536
  pub cancels : (total + c) % 65535 ≡ 0
  pub all_ones_only : c ≡ 65535 → total ≡ 0
  pub of_zero : total ≡ 0 → c ≡ 65535

pub checksum-IsChecksum : (buf : List ℕ) → IsBlock buf → IsChecksum (sum16 buf) (checksum buf)
unfolding checksum
checksum-IsChecksum buf (b, l) =
    ground (
      arith,
      sum16-le buf b,
      sum_words-eq-sum16 buf 0,
      fold_carries-IsFolded (sum16 buf) (sum16 buf),
    )

-- RFC 1071: addition with end-around carry.
abbrev pub ones_add : ℕ → ℕ → ℕ
ones_add a b = if ltb (a + b) 65536 then a + b else a + b - 65535

pub ones_sum : List ℕ → ℕ
ones_sum [] = 0
ones_sum (last ∷ []) = last
ones_sum (lo ∷ hi ∷ rest) = ones_add (lo + 256 * hi) (ones_sum rest)

ones_add-IsFolded : (w sum r : ℕ) → w < 65536 → IsFolded sum r → IsFolded (w + sum) (ones_add w r)
ones_add-IsFolded w sum r h f = ground arith

ones_sum-IsFolded : (buf : List ℕ) → IsBytes buf → IsFolded (sum16 buf) (ones_sum buf)
unfolding ones_sum sum16
ones_sum-IsFolded [] b = omega arith
ones_sum-IsFolded (last ∷ []) b = ground (arith, b 0)
ones_sum-IsFolded (lo ∷ hi ∷ rest) b =
    ones_add-IsFolded (lo + 256 * hi) (sum16 rest) (ones_sum rest) (omega (arith, b 0, b 1))
      (ones_sum-IsFolded rest (λ i. b (suc (suc i))))

-- On a block of bytes whose length is an `int`, `checksum` is the complement of the one's complement
-- sum of the 16-bit words, each addition with its end-around carry: deferring the carries to the
-- second loop changes nothing.
pub checksum-eq-ones_sum : (buf : List ℕ) → IsBlock buf → checksum buf ≡ 65535 - ones_sum buf
checksum-eq-ones_sum buf h = ground (arith, checksum-IsChecksum buf h, ones_sum-IsFolded buf (h.0))

pub IsBlock-store16 : (buf : List ℕ) (off v : ℕ) → IsBlock buf → IsBlock (store16 buf off v)
IsBlock-store16 buf off v (b, l) = (IsBytes-store16 buf off v b, rw (length-store16 buf off v) l)

-- A block whose checksum word, at an even offset, was zero when `checksum` was computed and then took
-- its value, has checksum 0: what a receiver tests.
pub checksum-store16 :
    (k : ℕ) (buf : List ℕ)
    → IsBlock buf
    → 2 * k + 1 < length buf
    → load16 buf (2 * k) ≡ 0
    → checksum (store16 buf (2 * k) (checksum buf)) ≡ 0
checksum-store16 k buf h inside cleared = ground (
  arith,
  checksum-IsChecksum buf h,
  checksum-IsChecksum (store16 buf (2 * k) (checksum buf))
      (IsBlock-store16 buf (2 * k) (checksum buf) h),
  sum16-store16 k buf (checksum buf) inside,
)

-- Replacing one word, at an even offset, of a block that passes the check makes it fail, unless the
-- two words are equal modulo 65535: the same word, or the two zeros of one's complement.
pub checksum_detects :
    (k : ℕ) (buf : List ℕ) (v : ℕ)
    → IsBlock buf
    → 2 * k + 1 < length buf
    → v < 65536
    → checksum buf ≡ 0
    → v % 65535 ≢ load16 buf (2 * k) % 65535
    → checksum (store16 buf (2 * k) v) ≢ 0
checksum_detects k buf v h inside fits passes other = ground (
  arith,
  checksum-IsChecksum buf h,
  checksum-IsChecksum (store16 buf (2 * k) v) (IsBlock-store16 buf (2 * k) v h),
  sum16-store16 k buf v inside,
)
