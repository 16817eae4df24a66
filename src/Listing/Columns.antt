-- ===== src/Listing/Columns.antt =====
-- hw2/hw2_1: which names stand where in the listing of HW2_1_2.
use file_system_homework.Base.{
  ℕ, suc, ◌+◌, ◌%◌, ◌≡◌, inl, inr, refl, ap, arith, List, [], ◌∷◌, ◌==◌, if◌then◌else◌, Bool-cases,
}
use file_system_homework.Listing.{is_hidden, Cell, columns}

unfoldable pub visible : List (List ℕ) → List (List ℕ)
visible [] = []
visible (name ∷ names) = if is_hidden name then visible names else name ∷ visible names

-- The cells of names whose first has `i` names before it.
pub breaks_from : ℕ → List (List ℕ) → List Cell
breaks_from i [] = []
breaks_from i (name ∷ names) =
    record { name = name; breaks = (i + 1) % 3 == 0 } ∷ breaks_from (suc i) names

-- The listing shows the names that are not hidden, in order, with a line break behind each third.
pub columns-visible :
    (names : List (List ℕ)) (i : ℕ) → columns (i % 3 + 1) names ≡ breaks_from i (visible names)
unfolding columns visible breaks_from
columns-visible [] i = refl
columns-visible (name ∷ names) i =
    let third : (i % 3 + 1 == 3) ≡ ((i + 1) % 3 == 0) = ground arith in
    let more : (if (i + 1) % 3 == 0 then 1 else i % 3 + 1 + 1) ≡ suc i % 3 + 1 = ground arith in
    elim (Bool-cases (is_hidden name)) [
      | inl e ↦ rw e (columns-visible names i)
      | inr e ↦
          rw (e, third, more)
            (ap (◌∷◌ (record { name = name; breaks = (i + 1) % 3 == 0 }))
              (columns-visible names (suc i)))
    ]
