-- ===== src/Bench/Workloads.antt =====
-- hw1: the workloads of the three programs, compared with the same effects.
use file_system_homework.Base.{
  ℕ, ◌+◌, ◌*◌, ◌/◌, ◌≡◌, ◌∙◌, refl, sym, ap, subst, arith, Bool, ◌&&◌, List, some, length,
  length-replicate, replicate,
}
use file_system_homework.Bench.{
  create_file, sequential_write, sequential_write_mapped, random_write_mapped,
}
use file_system_homework.Bench.Laws.{sequential_write-same, random_write-same}
use file_system_homework.Bench.World.{
  Sizes, World, Calls, Program, contents, can_open, with_file, with_mapping, draws,
}
use file_system_homework.Bench.Loops.{
  read_blocks, put, log, read_loop, copy_loop, write_loop, map_loop, random_read_loop,
  random_write_loop, random_map_loop,
}
use file_system_homework.Bench.Effects.{
  IsSizes, HasFile, Effect, Acts, made-Acts, opened-Acts, mapped-Acts,
}
use file_system_homework.Bench.Stdio
use file_system_homework.Bench.Descriptors
use file_system_homework.Bench.Mapped
use file_system_homework.Bench.Reads.{copy_blocks-read_blocks}

-- What the workloads do, whichever program they are of.
module _ (z : Sizes) (rand : ℕ → ℕ) where
  abbrev pub written : Effect
  written w = put (replicate z.file_size b'2') w

  abbrev pub read : Effect
  read w = read_loop z w

  abbrev pub read_at_random : Effect
  read_at_random w = random_read_loop z rand w

  abbrev pub written_at_random : Effect
  written_at_random w = random_map_loop z rand w

  module _ (sizes : IsSizes z) where
    pub whole_blocks :
        (bytes : List ℕ)
        → length bytes ≡ z.file_size
        → (create_file z.file_size z.block_size ≡ replicate z.file_size b'1')
          × (sequential_write z.file_size z.write_size ≡ replicate z.file_size b'2')
          × (sequential_write_mapped z.file_size z.write_size bytes ≡ replicate z.file_size b'2')
    whole_blocks bytes l =
        let (n, by_block) = sizes.0 in
        let (m, by_write) = sizes.1 in
        let blocks =
          sequential_write-same n z.block_size bytes (omega (arith, sizes.2, sizes.3))
            (l ∙ by_block) in
        let writes = sequential_write-same m z.write_size bytes sizes.2 (l ∙ by_write) in
        (
          subst (λ t. create_file t z.block_size ≡ replicate t b'1') (sym by_block) blocks.0,
          subst (λ t. sequential_write t z.write_size ≡ replicate t b'2') (sym by_write) writes.1,
          subst (λ t. sequential_write_mapped t z.write_size bytes ≡ replicate t b'2')
              (sym by_write) writes.2,
        )

    write_loop-written : (w : World) → HasFile z w → write_loop z w ≡ written w
    write_loop-written w (bytes, e, l) = ap (λ b. put b w) (whole_blocks bytes l).1

    map_loop-written : (w : World) → HasFile z w → map_loop z w ≡ written w
    map_loop-written w (bytes, e, l) = rw e (ap (λ b. put b w) (whole_blocks bytes l).2)

    copy_loop-read : (w : World) → copy_loop z w ≡ read w
    copy_loop-read w =
        ap (λ b. log b w)
          (copy_blocks-read_blocks (z.file_size / z.block_size) z.block_size 0 (contents w)
            ∙ ap (λ p. read_blocks (z.file_size / z.block_size) z.block_size p (contents w))
                (origin z.block_size))
      where
        origin : (b : ℕ) → 0 * b ≡ 0
        origin b = omega arith

    random_loops :
        (w : World)
        → HasFile z w
        → (random_write_loop z rand w ≡ written_at_random w) × HasFile z (written_at_random w)
    random_loops w (bytes, e, l) =
        let same =
          random_write-same z.file_size z.block_size z.write_size (draws rand z.times w.drawn)
            (contents w) sizes.4 sizes.3 (rw e l) in
        (
          ap (λ b. record w { file = some b; drawn = w.drawn + z.times }) same.0,
          (
            random_write_mapped z.file_size z.block_size z.write_size (draws rand z.times w.drawn)
                (contents w),
            refl,
            ap length (sym same.0) ∙ same.1,
          ),
        )

    keeps_file : (w : World) → HasFile z w → HasFile z (read w)
    keeps_file w file = file

    HasFile-written : (w : World) → HasFile z (written w)
    HasFile-written w =
        (replicate z.file_size b'2', refl, length-replicate {A = ℕ} z.file_size b'2')

    -- The workloads behind `create_file` of a program whose calls are judged by `works`.
    abbrev pub Behaves : (Calls → Bool) → Program → Type 0
    Behaves works p =
        Acts z works read p.sequential_read
        × Acts z works written p.sequential_write
        × Acts z works read_at_random p.random_read
        × Acts z works written_at_random p.random_buffered_write
        × Acts z works written_at_random p.random_synchronous_write

    -- The workloads that the two programs without mappings share.
    abbrev OpenedActs : Effect → Effect → Type 0
    OpenedActs effect loop = Acts z (λ c. c.opens) effect (λ c w. with_file (can_open c w) loop w)

    read-OpenedActs : OpenedActs read (read_loop z)
    read-OpenedActs = opened-Acts z read (read_loop z) (λ w m n. refl) (λ w f. refl) keeps_file

    read_at_random-OpenedActs : OpenedActs read_at_random (random_read_loop z rand)
    read_at_random-OpenedActs =
        opened-Acts z read_at_random (random_read_loop z rand) (λ w m n. refl) (λ w f. refl)
          keeps_file

    written_at_random-OpenedActs : OpenedActs written_at_random (random_write_loop z rand)
    written_at_random-OpenedActs =
        opened-Acts z written_at_random (random_write_loop z rand) (λ w m n. refl)
          (λ w f. (random_loops w f).0) (λ w f. (random_loops w f).1)

    pub stdio-Behaves : Behaves (λ c. c.opens) (Stdio.program z rand)
    unfolding Stdio.sequential_read Stdio.sequential_write Stdio.random_read
        Stdio.random_buffered_write Stdio.random_synchronous_write
    stdio-Behaves = (
      read-OpenedActs,
      made-Acts z written (write_loop z) (λ w m n. refl) write_loop-written
          (λ w f. HasFile-written w),
      read_at_random-OpenedActs,
      written_at_random-OpenedActs,
      written_at_random-OpenedActs,
    )

    pub descriptors-Behaves : Behaves (λ c. c.opens) (Descriptors.program z rand)
    unfolding Descriptors.sequential_read Descriptors.sequential_write Descriptors.random_read
        Descriptors.random_buffered_write Descriptors.random_synchronous_write
    descriptors-Behaves = (
      read-OpenedActs,
      opened-Acts z written (write_loop z) (λ w m n. refl) write_loop-written
          (λ w f. HasFile-written w),
      read_at_random-OpenedActs,
      written_at_random-OpenedActs,
      written_at_random-OpenedActs,
    )

    pub mapped-Behaves : Behaves (λ c. c.opens && c.maps) (Mapped.program z rand)
    unfolding Mapped.sequential_read Mapped.sequential_write Mapped.random_read
        Mapped.random_buffered_write Mapped.random_synchronous_write
    mapped-Behaves = (
      mapped-Acts z read (copy_loop z) (λ w m n. refl) (λ w f. copy_loop-read w) keeps_file,
      mapped-Acts z written (map_loop z) (λ w m n. refl) map_loop-written
          (λ w f. HasFile-written w),
      mapped-Acts z read_at_random (random_read_loop z rand) (λ w m n. refl) (λ w f. refl)
          keeps_file,
      random,
      random,
    )
      where
        random :
            Acts z
              (λ c. c.opens && c.maps)
              written_at_random
              (λ c w. with_mapping (can_open c w) c.maps (random_map_loop z rand) w)
        random =
            mapped-Acts z written_at_random (random_map_loop z rand) (λ w m n. refl) (λ w f. refl)
              (λ w f. (random_loops w f).1)
