-- ===== src/Bench/Tests.antt =====
-- hw1: the programs on a file of two blocks.
use file_system_homework.Base.{
  ℕ, ◌*◌, ◌+◌, ◌≡◌, refl, arith, [], ◌&&◌, none, true, false, if◌then◌else◌,
}
use file_system_homework.Bench.World.{Sizes, World, Calls}
use file_system_homework.Bench.Effects.{IsSizes}
use file_system_homework.Bench.Final.{Leaves}
use file_system_homework.Bench.Timing.{Time, Setting, Settings, main}
use file_system_homework.Bench.Main.{all_work, times_of}
use file_system_homework.Bench.Programs.{
  mapped, program_of, works_of, timed, main-Leaves, main-times_of,
}

abbrev small : Sizes
small = record { file_size = 8; block_size = 4; write_size = 2; times = 2 }

small-IsSizes : IsSizes small
small-IsSizes = ((2, refl), (4, refl), omega arith, omega arith, omega arith)

-- The sizes of the programs.
all_three-IsSizes :
    IsSizes (record { file_size = 104857600; block_size = 4096; write_size = 2048; times = 50000 })
all_three-IsSizes = ((25600, refl), (51200, refl), omega arith, omega arith, omega arith)

abbrev clock : ℕ → Time
clock n = record { sec = n; usec = 10 * n }

abbrev setting : Calls → ℕ → Setting
setting c n = record { calls = c; start = clock n; end = clock (n + 1) }

abbrev good : Calls
good = record { opens = true; maps = true }

abbrev no_map : Calls
no_map = record { opens = true; maps = false }

abbrev settings : Calls → Settings
settings c = record {
  create_file = good;
  sequential_read = setting good 1;
  sequential_write = setting good 2;
  random_read = setting c 3;
  random_buffered_write = setting good 4;
  random_synchronous_write = setting good 5;
}

abbrev fresh : World
fresh = record { file = none; open_fds = 3; mappings = 0; drawn = 0; reads = [] }

abbrev rand : ℕ → ℕ
rand k = 7 * k + 1

main-Leaves_example :
    Leaves small small-IsSizes rand fresh
      (main (program_of small rand mapped) (settings good) fresh).world
main-Leaves_example = main-Leaves small small-IsSizes rand mapped (settings good) fresh refl refl

main-times_of_example :
    let r = main (program_of small rand mapped) (settings no_map) fresh in
    let s = settings no_map in
    (r.code ≡ (if true && all_work (works_of mapped) (timed s) then 0 else 1))
    × (r.printed ≡ (if true then times_of (works_of mapped) (timed s) else []))
main-times_of_example = main-times_of small small-IsSizes rand mapped (settings no_map) fresh
