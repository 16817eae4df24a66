-- ===== src/Packet/Checksum/Fold.antt =====
-- The second loop of `checksum`.
use file_system_homework.Base.{
  ℕ, zero, suc, ◌+◌, ◌/◌, ◌%◌, ◌^◌, ◌≤◌, ◌<◌, ◌≡◌, arith, bit_and, bit_and_mask,
}
use file_system_homework.Packet.Checksum.{fold_carries}

pub record IsFolded (sum r : ℕ) : Type 0 where
  pub fits : r < 65536
  pub same_mod : r % 65535 ≡ sum % 65535
  pub zero_only : r ≡ 0 → sum ≡ 0
  pub of_zero : sum ≡ 0 → r ≡ 0

pub fold_carries-IsFolded : (fuel sum : ℕ) → sum ≤ fuel → IsFolded sum (fold_carries fuel sum)
unfolding fold_carries
fold_carries-IsFolded zero sum h = omega arith
fold_carries-IsFolded (suc fuel) sum h =
    ground
      (arith, bit_and_mask 16 sum, fold_carries-IsFolded fuel (bit_and sum 0xffff + sum / 2 ^ 16))
