-- ===== src/Base/Memory.antt =====
-- `memcpy` and `memset` into a block of memory.
use Prim.Native.Nat.{ℕ, zero, suc, ◌+◌, ◌-◌, ◌≤◌, ◌<◌}
use mathlib.Core.Path.{◌≡◌, refl, ap, ◌∙◌}
use mathlib.Core.Logic.{◌⊎◌, inl, inr}
use mathlib.Core.List.{List, [], ◌∷◌, ◌++◌}
use native.Mathlib.Omega.{arith}
use file_system_homework.Base.Lists.{
  length, get_or, set, slice, length-set, get_or-set_self, get_or-set_ne, slice-set_out, replicate,
  drop,
}

module _ {ℓ} {A : Type ℓ} where
  -- The elements of `xs` are written from `off` on.
  unfoldable pub overwrite : ℕ → List A → List A → List A
  overwrite off [] buf = buf
  overwrite off (x ∷ xs) buf = overwrite (suc off) xs (set buf off x)

  pub length-overwrite : (off : ℕ) (xs buf : List A) → length (overwrite off xs buf) ≡ length buf
  unfolding overwrite
  length-overwrite off [] buf = refl
  length-overwrite off (x ∷ xs) buf =
      length-overwrite (suc off) xs (set buf off x) ∙ length-set buf off x

  pub get_or-overwrite_out :
      (off : ℕ) (xs buf : List A) (j : ℕ) (d : A)
      → (j < off) ⊎ (off + length xs ≤ j)
      → get_or (overwrite off xs buf) j d ≡ get_or buf j d
  unfolding overwrite
  get_or-overwrite_out off [] buf j d h = refl
  get_or-overwrite_out off (x ∷ xs) buf j d (inl h) =
      get_or-overwrite_out (suc off) xs (set buf off x) j d (inl (omega arith))
      ∙ get_or-set_ne buf off j x d (omega arith)
  get_or-overwrite_out off (x ∷ xs) buf j d (inr h) =
      get_or-overwrite_out (suc off) xs (set buf off x) j d (inr (omega arith))
      ∙ get_or-set_ne buf off j x d (omega arith)

  pub get_or-overwrite_in :
      (off : ℕ) (xs buf : List A) (j : ℕ) (d : A)
      → j < length xs
      → off + length xs ≤ length buf
      → get_or (overwrite off xs buf) (off + j) d ≡ get_or xs j d
  unfolding overwrite
  get_or-overwrite_in off [] buf j d h fits = absurd (omega arith)
  get_or-overwrite_in off (x ∷ xs) buf zero d h fits =
      let e : off + 0 ≡ off = omega arith in
      rw e (
        get_or-overwrite_out (suc off) xs (set buf off x) off d (inl (omega arith))
        ∙ get_or-set_self buf off x d (omega arith))
  get_or-overwrite_in off (x ∷ xs) buf (suc j) d h fits =
      let e : off + suc j ≡ suc off + j = omega arith in
      rw e (
        get_or-overwrite_in (suc off) xs (set buf off x) j d (omega arith)
          (rw (length-set buf off x) (omega arith)))

  pub slice-overwrite_out :
      (lo len off : ℕ) (xs buf : List A)
      → (off + length xs ≤ lo) ⊎ (lo + len ≤ off)
      → slice lo len (overwrite off xs buf) ≡ slice lo len buf
  unfolding overwrite
  slice-overwrite_out lo len off [] buf h = refl
  slice-overwrite_out lo len off (x ∷ xs) buf (inl h) =
      slice-overwrite_out lo len (suc off) xs (set buf off x) (inl (omega arith))
      ∙ slice-set_out lo len buf off x (inl (omega arith))
  slice-overwrite_out lo len off (x ∷ xs) buf (inr h) =
      slice-overwrite_out lo len (suc off) xs (set buf off x) (inr (omega arith))
      ∙ slice-set_out lo len buf off x (inr (omega arith))

  pub get_or-replicate : (n : ℕ) (a : A) (j : ℕ) (d : A) → j < n → get_or (replicate n a) j d ≡ a
  get_or-replicate zero a j d h = absurd (omega arith)
  get_or-replicate (suc n) a zero d h = refl
  get_or-replicate (suc n) a (suc j) d h = get_or-replicate n a j d (omega arith)

  pub overwrite-suc :
      (off : ℕ) (xs : List A) (y : A) (ys : List A)
      → overwrite (suc off) xs (y ∷ ys) ≡ y ∷ overwrite off xs ys
  unfolding overwrite
  overwrite-suc off [] y ys = refl
  overwrite-suc off (x ∷ xs) y ys = overwrite-suc (suc off) xs y (set ys off x)

  -- A copy to the start of a block replaces its first elements.
  pub overwrite_front :
      (xs ys : List A) → length xs ≤ length ys → overwrite 0 xs ys ≡ xs ++ drop (length xs) ys
  unfolding overwrite
  overwrite_front [] ys h = refl
  overwrite_front (x ∷ xs) [] h = absurd (omega arith)
  overwrite_front (x ∷ xs) (y ∷ ys) h =
      overwrite-suc 0 xs x ys ∙ ap (◌∷◌ x) (overwrite_front xs ys (omega arith))

  pub drop-replicate : (n m : ℕ) (a : A) → drop n (replicate m a) ≡ replicate (m - n) a
  drop-replicate zero m a = let e : m - 0 ≡ m = omega arith in rw e
  drop-replicate (suc n) zero a = let e : 0 - suc n ≡ 0 = omega arith in rw e
  drop-replicate (suc n) (suc m) a =
      let e : suc m - suc n ≡ m - n = omega arith in rw e (drop-replicate n m a)

  pub set-append_front :
      (xs : List A) (y v : A) (ys : List A) → set (xs ++ y ∷ ys) (length xs) v ≡ xs ++ v ∷ ys
  set-append_front [] y v ys = refl
  set-append_front (x ∷ xs) y v ys = ap (◌∷◌ x) (set-append_front xs y v ys)
