-- ===== src/Bench.antt =====
-- The loops of hw1 that write: HW1_1 by stdio, HW1_2 by write, HW1_3 through a mapping. Sizes are arguments, for
-- `FILE_SIZE`, `BLOCK_SIZE` and `WRITE_BLOCK_SIZE`; what `rand` gives is an argument. A call that reads or writes transfers all bytes that there are.
mod Laws
pub mod World
pub mod Loops
pub mod Stdio
pub mod Descriptors
pub mod Mapped
mod Timing
mod Reads
mod Effects
mod Workloads
mod Main
mod Final
mod Programs
mod Tests
use file_system_homework.Base.{
  ℕ, zero, suc, ◌+◌, ◌*◌, ◌/◌, ◌%◌, List, [], ◌∷◌, ◌++◌, length, replicate, overwrite,
}
use file_system_homework.Copy.Async.{write_at}

-- The loop of `create_file` and of `sequential_write` in HW1_1 and HW1_2: `n` blocks, each behind the last.
pub write_blocks : List ℕ → ℕ → List ℕ → List ℕ
write_blocks block zero file = file
write_blocks block (suc n) file = write_blocks block n (file ++ block)

-- The loop of `sequential_write` in HW1_3: `n` blocks from the block `i` on.
pub map_blocks : List ℕ → (i n : ℕ) → List ℕ → List ℕ
map_blocks block i zero file = file
map_blocks block i (suc n) file =
    map_blocks block (suc i) n (overwrite (i * length block) block file)

pub create_file : (file_size block_size : ℕ) → List ℕ
create_file file_size block_size =
    write_blocks (replicate block_size b'1') (file_size / block_size) []

-- The file is truncated first.
pub sequential_write : (file_size block_size : ℕ) → List ℕ
sequential_write file_size block_size =
    write_blocks (replicate block_size b'2') (file_size / block_size) []

pub sequential_write_mapped : (file_size block_size : ℕ) → List ℕ → List ℕ
sequential_write_mapped file_size block_size file =
    map_blocks (replicate block_size b'2') 0 (file_size / block_size) file

-- `(rand() % num_of_block) * BLOCK_SIZE`
abbrev pub random_offset : (file_size block_size r : ℕ) → ℕ
random_offset file_size block_size r = r % (file_size / block_size) * block_size

-- `random_buffered_write` and `random_synchronous_write` of HW1_1 and HW1_2.
pub random_write : (file_size block_size write_size : ℕ) → List ℕ → List ℕ → List ℕ
random_write file_size block_size write_size [] file = file
random_write file_size block_size write_size (r ∷ rs) file =
    random_write file_size block_size write_size rs
      (write_at (random_offset file_size block_size r) (replicate write_size b'4') file)

-- The same of HW1_3.
pub random_write_mapped : (file_size block_size write_size : ℕ) → List ℕ → List ℕ → List ℕ
random_write_mapped file_size block_size write_size [] file = file
random_write_mapped file_size block_size write_size (r ∷ rs) file =
    random_write_mapped file_size block_size write_size rs
      (overwrite (random_offset file_size block_size r) (replicate write_size b'4') file)
