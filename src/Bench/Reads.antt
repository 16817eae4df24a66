-- ===== src/Bench/Reads.antt =====
-- hw1: what the loops that read find in a file that holds one byte everywhere.
use file_system_homework.Base.{
  ℕ, zero, suc, ◌+◌, ◌-◌, ◌*◌, ◌/◌, ◌≡◌, ◌≤◌, ◌<◌, ◌∙◌, refl, ap, ap₂, arith, List, [], ◌∷◌, length,
  slice, take, drop-replicate, replicate,
}
use file_system_homework.Bench.{random_offset}
use file_system_homework.Bench.Laws.{random_offset_lem}
use file_system_homework.Bench.World.{draws}
use file_system_homework.Bench.Loops.{read_blocks, copy_blocks, random_blocks}

pub copy_blocks-read_blocks :
    (n block_size i : ℕ) (file : List ℕ)
    → copy_blocks n block_size i file ≡ read_blocks n block_size (i * block_size) file
unfolding copy_blocks read_blocks
copy_blocks-read_blocks zero block_size i file = refl
copy_blocks-read_blocks (suc n) block_size i file =
    ap (◌∷◌ (slice (i * block_size) block_size file)) (
      copy_blocks-read_blocks n block_size (suc i) file
      ∙ ap (λ p. read_blocks n block_size p file) (next i block_size))
  where
    next : (i b : ℕ) → suc i * b ≡ i * b + b
    next i b = omega arith

take-replicate : (k n c : ℕ) → k ≤ n → take k (replicate n c) ≡ replicate k c
take-replicate zero n c h = refl
take-replicate (suc k) zero c h = absurd (omega (arith, h))
take-replicate (suc k) (suc n) c h = ap (◌∷◌ c) (take-replicate k n c (omega (arith, h)))

slice-replicate : (off k n c : ℕ) → off + k ≤ n → slice off k (replicate n c) ≡ replicate k c
slice-replicate off k n c h =
    ap (take k) (drop-replicate off n c) ∙ take-replicate k (n - off) c (omega (arith, h))

pub read_blocks-replicate :
    (n block_size position size c : ℕ)
    → position + n * block_size ≤ size
    → read_blocks n block_size position (replicate size c) ≡ replicate n (replicate block_size c)
unfolding read_blocks
read_blocks-replicate zero block_size position size c h = refl
read_blocks-replicate (suc n) block_size position size c h =
    ap₂ ◌∷◌ (slice-replicate position block_size size c (first n block_size h))
      (read_blocks-replicate n block_size (position + block_size) size c (rest n block_size h))
  where
    first : (n b : ℕ) → position + suc n * b ≤ size → position + b ≤ size
    first n b h = omega (arith, h)

    rest : (n b : ℕ) → position + suc n * b ≤ size → position + b + n * b ≤ size
    rest n b h = omega (arith, h)

pub random_blocks-replicate :
    (file_size block_size : ℕ) (rs : List ℕ) (c : ℕ)
    → 0 < file_size / block_size
    → random_blocks file_size block_size rs (replicate file_size c)
      ≡ replicate (length rs) (replicate block_size c)
unfolding random_blocks
random_blocks-replicate file_size block_size [] c pos = refl
random_blocks-replicate file_size block_size (r ∷ rs) c pos =
    ap₂ ◌∷◌
      (slice-replicate (random_offset file_size block_size r) block_size file_size c
        (random_offset_lem file_size block_size block_size r pos (omega arith)))
      (random_blocks-replicate file_size block_size rs c pos)

pub length-draws : (rand : ℕ → ℕ) (n k : ℕ) → length (draws rand n k) ≡ n
unfolding draws
length-draws rand zero k = refl
length-draws rand (suc n) k = ap suc (length-draws rand n (suc k))
