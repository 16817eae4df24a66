-- ===== src/Packet/Checksum.antt =====
-- `checksum` of hw5/Sender.c and hw5/HW5_1_5.c.
pub mod Fold
pub mod Words
pub mod Laws
mod Tests
use file_system_homework.Base.{
  ℕ, zero, suc, ◌+◌, ◌-◌, ◌*◌, ◌/◌, ◌%◌, ◌^◌, bit_and, true, false, List, [], ◌∷◌, ◌==◌,
}

abbrev u64 : ℕ → ℕ
u64 n = n % 2 ^ 64

-- The first loop and the odd byte: `sum` is an `unsigned long` of 64 bits. The list holds the `len`
-- bytes at `buf`.
unfoldable pub sum_words : List ℕ → ℕ → ℕ
sum_words [] sum = sum
sum_words (last ∷ []) sum = u64 (sum + last)
sum_words (lo ∷ hi ∷ rest) sum = sum_words rest (u64 (sum + (lo + 256 * hi)))

-- `while(sum >> 16)`. Each pass lowers the sum, so the sum itself is enough fuel.
unfoldable pub fold_carries : ℕ → ℕ → ℕ
fold_carries zero sum = sum
fold_carries (suc fuel) sum = elim (sum / 2 ^ 16 == 0) [
  | true ↦ sum
  | false ↦ fold_carries fuel (bit_and sum 0xffff + sum / 2 ^ 16)
]

-- `(unsigned short)(~sum)`
unfoldable pub checksum : List ℕ → ℕ
checksum buf =
    let sum = sum_words buf 0 in let folded = fold_carries sum sum in (2 ^ 64 - 1 - folded) % 2 ^ 16
