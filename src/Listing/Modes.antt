-- ===== src/Listing/Modes.antt =====
-- hw2/hw2_1: the letters of `print_permissions` and the bits of the mode.
use Prim.Native.Nat.{bit_and}
use file_system_homework.Base.{
  ℕ, zero, suc, ◌+◌, ◌*◌, ◌/◌, ◌%◌, ◌≡◌, ◌<◌, refl, arith, false, List, [], ◌∷◌, ◌==◌,
  if◌then◌else◌, bit_and_bit, drop,
}
use file_system_homework.Listing.{permissions, letter}

-- A digit for each letter: 0 for a dash.
pub read_letters : ℕ → List ℕ → ℕ
read_letters acc [] = acc
read_letters acc (c ∷ cs) = read_letters (acc * 2 + (if c == b'-' then 0 else 1)) cs

abbrev digit : ℕ → ℕ
digit c = if c == b'-' then 0 else 1

read_letter :
    (mode p q c : ℕ)
    → (c == b'-') ≡ false
    → 0 < p
    → q < 2
    → bit_and mode p ≡ q * p
    → digit (letter mode p c) ≡ q
read_letter mode p zero c h pos small e = ground (arith, h, pos, e)
read_letter mode p (suc zero) c h pos small e = ground (arith, h, pos, e)
read_letter mode p (suc (suc q)) c h pos small e = absurd (omega (arith, small))

-- The nine lower bits of the mode are what the letters behind the first show.
pub read_letters-permissions : (mode : ℕ) → read_letters 0 (drop 1 (permissions mode)) ≡ mode % 512
unfolding permissions read_letters
read_letters-permissions mode = omega (
  arith,
  read_letter mode 256 (mode / 256 % 2) b'r' refl (omega arith) (omega arith) (bit_and_bit 8 mode),
  read_letter mode 128 (mode / 128 % 2) b'w' refl (omega arith) (omega arith) (bit_and_bit 7 mode),
  read_letter mode 64 (mode / 64 % 2) b'x' refl (omega arith) (omega arith) (bit_and_bit 6 mode),
  read_letter mode 32 (mode / 32 % 2) b'r' refl (omega arith) (omega arith) (bit_and_bit 5 mode),
  read_letter mode 16 (mode / 16 % 2) b'w' refl (omega arith) (omega arith) (bit_and_bit 4 mode),
  read_letter mode 8 (mode / 8 % 2) b'x' refl (omega arith) (omega arith) (bit_and_bit 3 mode),
  read_letter mode 4 (mode / 4 % 2) b'r' refl (omega arith) (omega arith) (bit_and_bit 2 mode),
  read_letter mode 2 (mode / 2 % 2) b'w' refl (omega arith) (omega arith) (bit_and_bit 1 mode),
  read_letter mode 1 (mode / 1 % 2) b'x' refl (omega arith) (omega arith) (bit_and_bit 0 mode),
)
