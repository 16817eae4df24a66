-- ===== src/Copy/Async/Writes.antt =====
-- `async_io` of hw3: a write at an offset, byte by byte.
use file_system_homework.Base.{
  ℕ, zero, suc, ◌+◌, ◌-◌, ◌≡◌, ◌≤◌, ◌<◌, ◌∙◌, ap, refl, sym, arith, List, [], ◌∷◌, ◌++◌, length,
  get_or, take, drop, replicate, length-append, length-take, length-drop, length-replicate,
  get_or-take, get_or-drop,
}
use file_system_homework.Copy.Async.{write_at}

module _ {A : Type 0} where
  get_or-append_left :
      (xs ys : List A) (j : ℕ) (d : A) → j < length xs → get_or (xs ++ ys) j d ≡ get_or xs j d
  get_or-append_left [] ys j d h = absurd (omega (arith, h))
  get_or-append_left (x ∷ xs) ys zero d h = refl
  get_or-append_left (x ∷ xs) ys (suc j) d h = get_or-append_left xs ys j d (omega (arith, h))

  get_or-append_right :
      (xs ys : List A) (j : ℕ) (d : A) → get_or (xs ++ ys) (length xs + j) d ≡ get_or ys j d
  get_or-append_right [] ys j d = let e : 0 + j ≡ j = omega arith in rw e
  get_or-append_right (x ∷ xs) ys j d =
      let e : suc (length xs) + j ≡ suc (length xs + j) = omega arith in
      rw e (get_or-append_right xs ys j d)

module _ (offset : ℕ) (bytes file : List ℕ) where
  front : List ℕ
  front = take offset (file ++ replicate (offset - length file) 0)

  length-front : length front ≡ offset
  unfolding front
  length-front = omega (
    arith,
    length-take offset (file ++ replicate (offset - length file) 0),
    length-append file (replicate (offset - length file) 0),
    length-replicate {A = ℕ} (offset - length file) 0,
  )

  pub length-write_at :
      (length file ≤ length (write_at offset bytes file))
      × (offset + length bytes ≤ length (write_at offset bytes file))
      × ((n : ℕ)
          → length file ≤ n
          → offset + length bytes ≤ n
          → length (write_at offset bytes file) ≤ n)
  unfolding write_at front
  length-write_at =
      let rest : List ℕ = drop (offset + length bytes) file in
      let e₁ : length (front ++ (bytes ++ rest)) ≡ length front + length (bytes ++ rest) =
        length-append front (bytes ++ rest) in
      let e₂ : length (bytes ++ rest) ≡ length bytes + length rest = length-append bytes rest in
      let e₃ : length rest ≡ length file - (offset + length bytes) =
        length-drop (offset + length bytes) file in
      (
        omega (arith, e₁, e₂, e₃, length-front),
        omega (arith, e₁, e₂, length-front),
        λ n h k. omega (arith, e₁, e₂, e₃, length-front, h, k),
      )

  pub get_or-write_at_front :
      (j : ℕ)
      → j < offset
      → j < length file
      → get_or (write_at offset bytes file) j 0 ≡ get_or file j 0
  unfolding write_at front
  get_or-write_at_front j h k =
      get_or-append_left front (bytes ++ drop (offset + length bytes) file) j 0
        (omega (arith, length-front, h))
      ∙ get_or-take offset (file ++ replicate (offset - length file) 0) j 0 h
      ∙ get_or-append_left file (replicate (offset - length file) 0) j 0 k

  pub get_or-write_at_in :
      (i : ℕ)
      → i < length bytes
      → get_or (write_at offset bytes file) (offset + i) 0 ≡ get_or bytes i 0
  unfolding write_at front
  get_or-write_at_in i h =
      ap (λ n. get_or (front ++ (bytes ++ drop (offset + length bytes) file)) (n + i) 0)
        (sym length-front)
      ∙ get_or-append_right front (bytes ++ drop (offset + length bytes) file) i 0
      ∙ get_or-append_left bytes (drop (offset + length bytes) file) i 0 h

  pub get_or-write_at_back :
      (i : ℕ)
      → get_or (write_at offset bytes file) (offset + (length bytes + i)) 0
        ≡ get_or file (offset + length bytes + i) 0
  unfolding write_at front
  get_or-write_at_back i =
      ap
        (λ n.
          get_or (front ++ (bytes ++ drop (offset + length bytes) file)) (n + (length bytes + i)) 0)
        (sym length-front)
      ∙ get_or-append_right front (bytes ++ drop (offset + length bytes) file) (length bytes + i) 0
      ∙ get_or-append_right bytes (drop (offset + length bytes) file) i 0
      ∙ get_or-drop (offset + length bytes) file i 0
