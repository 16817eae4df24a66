-- ===== src/Bench/Loops.antt =====
-- hw1: the loops of the workloads, on the world while the file is open.
use file_system_homework.Base.{ℕ, zero, suc, ◌+◌, ◌*◌, ◌/◌, List, [], ◌∷◌, ◌++◌, some, slice}
use file_system_homework.Bench.{
  create_file, sequential_write, sequential_write_mapped, random_offset, random_write,
  random_write_mapped,
}
use file_system_homework.Bench.World.{Sizes, World, contents, draws}

-- `n` reads of a block, each from where the last one ended.
unfoldable pub read_blocks : (n block_size position : ℕ) → List ℕ → List (List ℕ)
read_blocks zero block_size position file = []
read_blocks (suc n) block_size position file =
    slice position block_size file ∷ read_blocks n block_size (position + block_size) file

-- `n` copies of a block out of the mapping, from block `i` on.
unfoldable pub copy_blocks : (n block_size i : ℕ) → List ℕ → List (List ℕ)
copy_blocks zero block_size i file = []
copy_blocks (suc n) block_size i file =
    slice (i * block_size) block_size file ∷ copy_blocks n block_size (suc i) file

-- A block at each offset that `rand` gives.
unfoldable pub random_blocks : (file_size block_size : ℕ) → List ℕ → List ℕ → List (List ℕ)
random_blocks file_size block_size [] file = []
random_blocks file_size block_size (r ∷ rs) file =
    slice (random_offset file_size block_size r) block_size file
    ∷ random_blocks file_size block_size rs file

abbrev pub put : List ℕ → World → World
put bytes w = record w { file = some bytes }

abbrev pub log : List (List ℕ) → World → World
log buffers w = record w { reads = w.reads ++ buffers }

module _ (z : Sizes) where
  abbrev pub create_loop : World → World
  create_loop w = put (create_file z.file_size z.block_size) w

  abbrev pub read_loop : World → World
  read_loop w = log (read_blocks (z.file_size / z.block_size) z.block_size 0 (contents w)) w

  abbrev pub copy_loop : World → World
  copy_loop w = log (copy_blocks (z.file_size / z.block_size) z.block_size 0 (contents w)) w

  abbrev pub write_loop : World → World
  write_loop w = put (sequential_write z.file_size z.write_size) w

  abbrev pub map_loop : World → World
  map_loop w = put (sequential_write_mapped z.file_size z.write_size (contents w)) w

module _ (z : Sizes) (rand : ℕ → ℕ) where
  abbrev pub rands : World → List ℕ
  rands w = draws rand z.times w.drawn

  abbrev pub drew : World → World
  drew w = record w { drawn = w.drawn + z.times }

  abbrev pub random_read_loop : World → World
  random_read_loop w = log (random_blocks z.file_size z.block_size (rands w) (contents w)) (drew w)

  abbrev pub random_write_loop : World → World
  random_write_loop w =
      put (random_write z.file_size z.block_size z.write_size (rands w) (contents w)) (drew w)

  abbrev pub random_map_loop : World → World
  random_map_loop w =
      put (random_write_mapped z.file_size z.block_size z.write_size (rands w) (contents w))
        (drew w)
