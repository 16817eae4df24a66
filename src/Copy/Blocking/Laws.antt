-- ===== src/Copy/Blocking/Laws.antt =====
-- `blocking_io` of hw3: the copy and the file.
use file_system_homework.Base.{
  append_empty, ℕ, zero, suc, ◌≡◌, ◌≤◌, ◌<◌, ◌∙◌, inl, inr, refl, ap, arith, min, Bool, true, false,
  ◌&&◌, not, ◌↔◌, List, [], ◌∷◌, ◌++◌, some, length, take, drop, take_all, length-take, length-drop,
  take-append-drop, ◌==◌, Bool-cases,
}
use file_system_homework.Copy.Blocking.{Round, read_bytes, copy_loop, blocking_io, buffer_size}

-- No call fails, and each write takes all the bytes of the buffer.
abbrev pub AreWhole : List Round → Type 0
AreWhole [] = Unit
AreWhole (r ∷ rs) =
    ((n : ℕ) × (r.read ≡ some n)) × ((w : ℕ) × (r.write ≡ some w) × (buffer_size ≤ w)) × AreWhole rs

append_parts : (m : ℕ) (rest dest : List ℕ) → (dest ++ take m rest) ++ drop m rest ≡ dest ++ rest
append_parts m rest [] = take-append-drop m rest
append_parts m rest (x ∷ dest) = ap (◌∷◌ x) (append_parts m rest dest)

drop-length-take : (n : ℕ) (xs : List ℕ) → drop (length (take n xs)) xs ≡ drop n xs
drop-length-take zero xs = refl
drop-length-take (suc n) [] = refl
drop-length-take (suc n) (x ∷ xs) = drop-length-take n xs

copy_loop-dest :
    (rs : List Round) (rest dest : List ℕ)
    → AreWhole rs
    → length rest < length rs
    → copy_loop rs rest dest ≡ record { dest = dest ++ rest; ended = true }
unfolding copy_loop
copy_loop-dest [] rest dest h l = absurd (omega (arith, l))
copy_loop-dest (r ∷ rs) rest dest ((n, e), (w, f, b), hs) l =
    elim (Bool-cases (length (read_bytes n rest) == 0)) [
      | inl q ↦
          rw (copy_loop, e, q)
            (ap (λ d. record { dest = d; ended = true })
              (append_empty rest dest
                (ground (arith, q, length-take (min (suc n) buffer_size) rest))))
      | inr q ↦
          rw
            (
              copy_loop,
              e,
              q,
              f,
              take_all w (read_bytes n rest)
                  (omega (arith, b, length-take (min (suc n) buffer_size) rest)),
              drop-length-take (min (suc n) buffer_size) rest,
            )
            (copy_loop-dest rs (drop (min (suc n) buffer_size) rest) (dest ++ read_bytes n rest) hs
                (omega (arith, l, length-drop (min (suc n) buffer_size) rest, length_pos q))
              ∙ ap (λ d. record { dest = d; ended = true })
                  (append_parts (min (suc n) buffer_size) rest dest))
    ]
  where
    length_pos : (length (read_bytes n rest) == 0) ≡ false → 0 < length rest
    length_pos q = ground (arith, q, length-take (min (suc n) buffer_size) rest)

-- The copy by `read` and `write` ends and is the file, whatever the sizes of the reads are, if both files open, no call
-- fails, each write takes all that was read, and there are rounds enough: one more than bytes suffice.
pub blocking_io-dest :
    (rs : List Round) (src : List ℕ)
    → AreWhole rs
    → length src < length rs
    → blocking_io true true rs src
      ≡ record { copied = some (record { dest = src; ended = true }); open_fds = 0 }
unfolding blocking_io
blocking_io-dest rs src h l =
    ap (λ c. record { copied = some c; open_fds = 0 }) (copy_loop-dest rs src [] h l)

-- If the destination cannot be opened, the source stays open.
pub blocking_io-open_fds :
    (src_opens dest_opens : Bool) (rs : List Round) (src : List ℕ)
    → ((blocking_io src_opens dest_opens rs src).open_fds ≡ 0)
      ↔ ((src_opens && not dest_opens) ≡ false)
unfolding blocking_io
blocking_io-open_fds src_opens dest_opens rs src = ground arith
