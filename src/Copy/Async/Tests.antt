-- ===== src/Copy/Async/Tests.antt =====
-- `async_io` of hw3: a file copied through two buffers, and a read that fails.
use file_system_homework.Base.{
  true, ◌==◌, ℕ, suc, ◌*◌, ◌≡◌, refl, arith, List, [], ◌∷◌, Option, some, none, length,
}
use file_system_homework.Copy.Async.{
  State, start, is_running, round, run, refill, fill_slots, complete, write_at,
}
use file_system_homework.Copy.Async.InOrder.{first_busy, whole, fair}
use file_system_homework.Copy.Async.Copies.{run-dest, run_stuck}

abbrev hello : List ℕ
hello = b'h' ∷ b'e' ∷ b'l' ∷ b'l' ∷ b'o' ∷ []

abbrev copy_of : Option State → List ℕ
copy_of none = []
copy_of (some s) = s.dest

hello_copied : copy_of (run 3 hello (λ k. true) (λ k. first_busy) (λ k. whole) (start 2)) ≡ hello
unfolding run round refill fill_slots complete write_at start is_running first_busy whole
hello_copied = refl

-- The second wait fails: the read is done, and nothing is written.
hello_broken : copy_of (run 3 hello (λ k. k == 2) (λ k. first_busy) (λ k. whole) (start 2)) ≡ []
unfolding run round refill fill_slots complete write_at start is_running first_busy whole
hello_broken = refl

run-dest_example :
    (s' : State) × (run
        (suc (3 * length hello))
        hello
        (λ k. true)
        (λ k. first_busy)
        (λ k. whole)
        (start 2)
      ≡ some s')
    × (s'.dest ≡ hello)
run-dest_example =
    run-dest 2 hello (λ k. true) (λ k. first_busy) (λ k. whole) (omega arith) (λ k. refl) fair

-- After the read failed.
abbrev failed_read : State
failed_read = round hello first_busy (λ s. none) (start 2)

failed_read-stuck : (failed_read.active_reqs ≡ 0) × (failed_read.read_offset ≡ 5)
unfolding round refill fill_slots complete start first_busy
failed_read-stuck = (refl, refl)

run_stuck_example : run 1000 hello (λ k. true) (λ k. first_busy) (λ k. whole) failed_read ≡ none
unfolding round refill fill_slots complete start first_busy
run_stuck_example =
    run_stuck 1000 hello (λ k. true) (λ k. first_busy) (λ k. whole) failed_read refl (omega arith)
      (omega arith)
