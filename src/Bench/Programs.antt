-- ===== src/Bench/Programs.antt =====
-- hw1: the runs of the three programs.
use file_system_homework.Base.{
  ℕ, ◌≡◌, inl, inr, ◌∙◌, refl, sym, ap, subst, Bool, true, ◌&&◌, List, [], ◌∷◌, length-replicate,
  Bool-cases, replicate, if◌then◌else◌,
}
use file_system_homework.Bench.World.{Sizes, World, Calls, returned, Program, with_file}
use file_system_homework.Bench.Loops.{create_loop, put}
use file_system_homework.Bench.Effects.{IsSizes, HasFile, with_file-returned}
use file_system_homework.Bench.Workloads.{
  read, written, read_at_random, written_at_random, stdio-Behaves, descriptors-Behaves,
  mapped-Behaves, whole_blocks,
}
use file_system_homework.Bench.Timing.{Setting, Settings, measure, main}
use file_system_homework.Bench.Main.{
  Job, jobs, AllAct, times_of, all_work, measure-times_of, measure-effects_of,
}
use file_system_homework.Bench.Final.{Leaves, created, ended-Leaves}
use file_system_homework.Bench.Stdio
use file_system_homework.Bench.Descriptors
use file_system_homework.Bench.Mapped

-- The three programs, and the calls that a workload of each needs.
pub data Interface : Type 0 where
  stdio : Interface
  descriptors : Interface
  mapped : Interface

abbrev pub program_of : Sizes → (ℕ → ℕ) → Interface → Program
program_of z rand stdio = Stdio.program z rand
program_of z rand descriptors = Descriptors.program z rand
program_of z rand mapped = Mapped.program z rand

abbrev pub works_of : Interface → Calls → Bool
works_of stdio c = c.opens
works_of descriptors c = c.opens
works_of mapped c = c.opens && c.maps

abbrev pub job_list : Sizes → (ℕ → ℕ) → Program → Settings → List Job
job_list z rand p s =
    record { workload = p.sequential_read; setting = s.sequential_read; effect = read z rand }
    ∷ record {
      workload = p.sequential_write;
      setting = s.sequential_write;
      effect = written z rand;
    }
    ∷ record { workload = p.random_read; setting = s.random_read; effect = read_at_random z rand }
    ∷ record {
      workload = p.random_buffered_write;
      setting = s.random_buffered_write;
      effect = written_at_random z rand;
    }
    ∷ record {
      workload = p.random_synchronous_write;
      setting = s.random_synchronous_write;
      effect = written_at_random z rand;
    }
    ∷ []

-- The settings of the workloads that are timed.
abbrev pub timed : Settings → List Setting
timed s =
    s.sequential_read ∷ s.sequential_write ∷ s.random_read ∷ s.random_buffered_write
    ∷ s.random_synchronous_write ∷ []

module _ (z : Sizes) (sizes : IsSizes z) (rand : ℕ → ℕ) where
  program_of-AllAct :
      (i : Interface) (s : Settings)
      → AllAct z (works_of i) (job_list z rand (program_of z rand i) s)
  program_of-AllAct stdio s =
      let (a, b, c, d, e) = stdio-Behaves z rand sizes in (a, (b, (c, (d, (e, tt)))))
  program_of-AllAct descriptors s =
      let (a, b, c, d, e) = descriptors-Behaves z rand sizes in (a, (b, (c, (d, (e, tt)))))
  program_of-AllAct mapped s =
      let (a, b, c, d, e) = mapped-Behaves z rand sizes in (a, (b, (c, (d, (e, tt)))))

  -- `create_file`, which is the same in all three and needs no file before it.
  create_file-with_file :
      (i : Interface) (c : Calls) (w : World)
      → (program_of z rand i).create_file c w ≡ with_file c.opens (create_loop z) w
  unfolding Stdio.create_file Descriptors.create_file Mapped.create_file
  create_file-with_file stdio c w = refl
  create_file-with_file descriptors c w = refl
  create_file-with_file mapped c w = refl

  create_file-created :
      (i : Interface) (c : Calls) (w : World)
      → c.opens ≡ true
      → (program_of z rand i).create_file c w ≡ returned (created z sizes rand w)
  create_file-created i c w e =
      create_file-with_file i c w
      ∙ ap (λ b. with_file b (create_loop z) w) e
      ∙ with_file-returned (create_loop z) w (λ w m n. refl)
      ∙ ap (λ b. returned (put b w))
          (whole_blocks z rand sizes (replicate z.file_size b'1')
            (length-replicate {A = ℕ} z.file_size b'1')).0

  created-HasFile : (w : World) → HasFile z (created z sizes rand w)
  created-HasFile w = (replicate z.file_size b'1', refl, length-replicate {A = ℕ} z.file_size b'1')

  main-measure :
      (i : Interface) (s : Settings) (w : World)
      → s.create_file.opens ≡ true
      → main (program_of z rand i) s w
        ≡ measure (jobs (job_list z rand (program_of z rand i) s)) (created z sizes rand w)
  unfolding main
  main-measure i s w e = rw (main, create_file-created i s.create_file w e) refl

  -- If the file is a number of blocks of either size, a write is not empty and no longer than a block, and the calls that
  -- a program uses succeed, then whichever of the three programs runs, and whatever the file held before: the file ends
  -- with `FILE_SIZE` bytes, each '4' if a random write covers it and '2' otherwise, both random reads and the sequential
  -- read have seen the full blocks that stood in the file at the time, and no descriptor or mapping stays open.
  pub main-Leaves :
      (i : Interface) (s : Settings) (w : World)
      → s.create_file.opens ≡ true
      → all_work (works_of i) (timed s) ≡ true
      → Leaves z sizes rand w (main (program_of z rand i) s w).world
  main-Leaves i s w e all =
      subst (λ r. Leaves z sizes rand w r)
        (sym (
          ap (λ r. r.world) (main-measure i s w e)
          ∙ measure-effects_of z (works_of i) (job_list z rand (program_of z rand i) s)
              (created z sizes rand w) (program_of-AllAct i s) (created-HasFile w) all))
        (ended-Leaves z sizes rand w)

  -- For each of the three programs, whichever calls fail: a time is printed for every workload before the first one that
  -- fails, and the exit code is 0 if none fails and 1 otherwise; if `create_file` fails nothing is printed.
  pub main-times_of :
      (i : Interface) (s : Settings) (w : World)
      → let r = main (program_of z rand i) s w in
        let created = s.create_file.opens in
        (r.code ≡ (if created && all_work (works_of i) (timed s) then 0 else 1))
        × (r.printed ≡ (if created then times_of (works_of i) (timed s) else []))
  unfolding main
  main-times_of i s w = elim (Bool-cases s.create_file.opens) [
    | inl e ↦
        let told =
          measure-times_of z (works_of i) (job_list z rand (program_of z rand i) s)
            (created z sizes rand w) (program_of-AllAct i s) (created-HasFile w) in
        rw (main-measure i s w e, e) (told.1, told.0)
    | inr e ↦ rw (main, create_file-with_file i s.create_file w, e) (refl, refl)
  ]
