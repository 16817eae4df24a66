-- ===== src/Bench/Mapped.antt =====
-- hw1/HW1_3.c: the workloads through a mapping of the whole file; `create_file` is by stdio. `fsync` changes nothing of
-- what the file holds.
use file_system_homework.Base.{ℕ}
use file_system_homework.Bench.World.{Sizes, Workload, Program, can_open, with_file, with_mapping}
use file_system_homework.Bench.Loops.{
  create_loop, copy_loop, map_loop, random_read_loop, random_map_loop,
}

module _ (z : Sizes) (rand : ℕ → ℕ) where
  unfoldable pub create_file : Workload
  create_file c = with_file c.opens (create_loop z)

  unfoldable pub sequential_read : Workload
  sequential_read c w = with_mapping (can_open c w) c.maps (copy_loop z) w

  unfoldable pub sequential_write : Workload
  sequential_write c w = with_mapping (can_open c w) c.maps (map_loop z) w

  unfoldable pub random_read : Workload
  random_read c w = with_mapping (can_open c w) c.maps (random_read_loop z rand) w

  unfoldable pub random_buffered_write : Workload
  random_buffered_write c w = with_mapping (can_open c w) c.maps (random_map_loop z rand) w

  unfoldable pub random_synchronous_write : Workload
  random_synchronous_write c w = with_mapping (can_open c w) c.maps (random_map_loop z rand) w

  abbrev pub program : Program
  program = record {
    create_file = create_file;
    sequential_read = sequential_read;
    sequential_write = sequential_write;
    random_read = random_read;
    random_buffered_write = random_buffered_write;
    random_synchronous_write = random_synchronous_write;
  }
