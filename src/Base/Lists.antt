-- ===== src/Base/Lists.antt =====
-- Lists measured and indexed by native numbers: C arrays, and the bytes of buffers and files.
use Prim.Native.Nat.{ℕ, zero, suc, ◌+◌, ◌-◌, ◌≤◌, ◌<◌, min}
use mathlib.Core.Path.{◌≡◌, refl, ap, ap₂, ◌∙◌}
use mathlib.Core.Logic.{◌≢◌, ◌⊎◌, inl, inr}
use mathlib.Core.List.{List, [], ◌∷◌, ◌++◌}
use mathlib.Core.Option.{Option, none, some}
use native.Mathlib.Omega.{arith}

module _ {ℓ} {A : Type ℓ} where
  abbrev pub length : List A → ℕ
  length [] = 0
  length (x ∷ xs) = suc (length xs)

  abbrev pub get_elem? : List A → ℕ → Option A
  get_elem? [] i = none
  get_elem? (x ∷ xs) zero = some x
  get_elem? (x ∷ xs) (suc i) = get_elem? xs i

  abbrev pub get_or : List A → ℕ → A → A
  get_or [] i d = d
  get_or (x ∷ xs) zero d = x
  get_or (x ∷ xs) (suc i) d = get_or xs i d

  -- A write out of bounds changes nothing.
  abbrev pub set : List A → ℕ → A → List A
  set [] i v = []
  set (x ∷ xs) zero v = v ∷ xs
  set (x ∷ xs) (suc i) v = x ∷ set xs i v

  abbrev pub take : ℕ → List A → List A
  take zero xs = []
  take (suc n) [] = []
  take (suc n) (x ∷ xs) = x ∷ take n xs

  abbrev pub drop : ℕ → List A → List A
  drop zero xs = xs
  drop (suc n) [] = []
  drop (suc n) (x ∷ xs) = drop n xs

  abbrev pub replicate : ℕ → A → List A
  replicate zero a = []
  replicate (suc n) a = a ∷ replicate n a

module _ {ℓ} {A : Type ℓ} where
  pub length-append : (xs ys : List A) → length (xs ++ ys) ≡ length xs + length ys
  length-append [] ys = omega arith
  length-append (x ∷ xs) ys = omega (arith, length-append xs ys)

  pub length-set : (xs : List A) (i : ℕ) (v : A) → length (set xs i v) ≡ length xs
  length-set [] i v = refl
  length-set (x ∷ xs) zero v = refl
  length-set (x ∷ xs) (suc i) v = ap suc (length-set xs i v)

  pub length-take : (n : ℕ) (xs : List A) → length (take n xs) ≡ min n (length xs)
  length-take zero xs = omega arith
  length-take (suc n) [] = omega arith
  length-take (suc n) (x ∷ xs) = omega (arith, length-take n xs)

  pub length-drop : (n : ℕ) (xs : List A) → length (drop n xs) ≡ length xs - n
  length-drop zero xs = omega arith
  length-drop (suc n) [] = omega arith
  length-drop (suc n) (x ∷ xs) = omega (arith, length-drop n xs)

  pub length-replicate : (n : ℕ) (a : A) → length (replicate n a) ≡ n
  length-replicate zero a = refl
  length-replicate (suc n) a = ap suc (length-replicate n a)

  pub get_or-set_self :
      (xs : List A) (i : ℕ) (v d : A) → i < length xs → get_or (set xs i v) i d ≡ v
  get_or-set_self [] i v d h = absurd (omega arith)
  get_or-set_self (x ∷ xs) zero v d h = refl
  get_or-set_self (x ∷ xs) (suc i) v d h = get_or-set_self xs i v d (omega arith)

  pub get_or-set_ne :
      (xs : List A) (i j : ℕ) (v d : A) → i ≢ j → get_or (set xs i v) j d ≡ get_or xs j d
  get_or-set_ne [] i j v d h = refl
  get_or-set_ne (x ∷ xs) zero zero v d h = absurd (h refl)
  get_or-set_ne (x ∷ xs) zero (suc j) v d h = refl
  get_or-set_ne (x ∷ xs) (suc i) zero v d h = refl
  get_or-set_ne (x ∷ xs) (suc i) (suc j) v d h = get_or-set_ne xs i j v d (λ e. h (ap suc e))

  pub get_or-take :
      (n : ℕ) (xs : List A) (i : ℕ) (d : A) → i < n → get_or (take n xs) i d ≡ get_or xs i d
  get_or-take zero xs i d h = absurd (omega arith)
  get_or-take (suc n) [] i d h = refl
  get_or-take (suc n) (x ∷ xs) zero d h = refl
  get_or-take (suc n) (x ∷ xs) (suc i) d h = get_or-take n xs i d (omega arith)

  pub get_or-drop :
      (n : ℕ) (xs : List A) (i : ℕ) (d : A) → get_or (drop n xs) i d ≡ get_or xs (n + i) d
  get_or-drop zero xs i d = let e : 0 + i ≡ i = omega arith in rw e
  get_or-drop (suc n) [] i d = refl
  get_or-drop (suc n) (x ∷ xs) i d =
      let e : suc n + i ≡ suc (n + i) = omega arith in rw e (get_or-drop n xs i d)

  pub get_or_beyond : (xs : List A) (i : ℕ) (d : A) → length xs ≤ i → get_or xs i d ≡ d
  get_or_beyond [] i d h = refl
  get_or_beyond (x ∷ xs) zero d h = absurd (omega arith)
  get_or_beyond (x ∷ xs) (suc i) d h = get_or_beyond xs i d (omega arith)

  -- In range the default does not matter.
  pub get_or_default :
      (xs : List A) (i : ℕ) (d e : A) → i < length xs → get_or xs i d ≡ get_or xs i e
  get_or_default [] i d e h = absurd (omega arith)
  get_or_default (x ∷ xs) zero d e h = refl
  get_or_default (x ∷ xs) (suc i) d e h = get_or_default xs i d e (omega arith)

  pub get_or_ext :
      (d : A) (xs ys : List A)
      → length xs ≡ length ys
      → ((i : ℕ) → i < length xs → get_or xs i d ≡ get_or ys i d)
      → xs ≡ ys
  get_or_ext d [] [] e h = refl
  get_or_ext d [] (y ∷ ys) e h = absurd (omega arith)
  get_or_ext d (x ∷ xs) [] e h = absurd (omega arith)
  get_or_ext d (x ∷ xs) (y ∷ ys) e h =
      ap₂ ◌∷◌ (h 0 (omega arith))
        (get_or_ext d xs ys (omega arith) (λ i p. h (suc i) (omega arith)))

  pub take-length : (xs ys : List A) → take (length xs) (xs ++ ys) ≡ xs
  take-length [] ys = refl
  take-length (x ∷ xs) ys = ap (◌∷◌ x) (take-length xs ys)

  pub drop-length : (xs ys : List A) → drop (length xs) (xs ++ ys) ≡ ys
  drop-length [] ys = refl
  drop-length (x ∷ xs) ys = drop-length xs ys

  pub append_empty : (rest pre : List A) → length rest ≡ 0 → pre ≡ pre ++ rest
  append_empty [] [] h = refl
  append_empty [] (x ∷ pre) h = ap (◌∷◌ x) (append_empty [] pre h)
  append_empty (y ∷ rest) pre h = absurd (omega (arith, h))

  pub take-append-drop : (n : ℕ) (xs : List A) → take n xs ++ drop n xs ≡ xs
  take-append-drop zero xs = refl
  take-append-drop (suc n) [] = refl
  take-append-drop (suc n) (x ∷ xs) = rw (take-append-drop n xs)

  pub take_all : (n : ℕ) (xs : List A) → length xs ≤ n → take n xs ≡ xs
  take_all zero [] h = refl
  take_all zero (x ∷ xs) h = absurd (omega arith)
  take_all (suc n) [] h = refl
  take_all (suc n) (x ∷ xs) h = ap (◌∷◌ x) (take_all n xs (omega arith))

-- The bytes of `xs` from `off` on, `len` of them: what a pointer `xs + off` and a length name.
module _ {ℓ} {A : Type ℓ} where
  abbrev pub slice : ℕ → ℕ → List A → List A
  slice off len xs = take len (drop off xs)

  pub length-slice :
      (off len : ℕ) (xs : List A) → off + len ≤ length xs → length (slice off len xs) ≡ len
  length-slice off len xs h = omega (arith, length-take len (drop off xs), length-drop off xs)

  pub get_or-slice :
      (off len : ℕ) (xs : List A) (i : ℕ) (d : A)
      → i < len
      → get_or (slice off len xs) i d ≡ get_or xs (off + i) d
  get_or-slice off len xs i d h = get_or-take len (drop off xs) i d h ∙ get_or-drop off xs i d

  take-set_in :
      (len : ℕ) (xs : List A) (i : ℕ) (v : A)
      → i < len
      → take len (set xs i v) ≡ set (take len xs) i v
  take-set_in zero xs i v h = absurd (omega arith)
  take-set_in (suc n) [] i v h = refl
  take-set_in (suc n) (x ∷ xs) zero v h = refl
  take-set_in (suc n) (x ∷ xs) (suc i) v h = ap (◌∷◌ x) (take-set_in n xs i v (omega arith))

  take-set_out :
      (len : ℕ) (xs : List A) (i : ℕ) (v : A) → len ≤ i → take len (set xs i v) ≡ take len xs
  take-set_out zero xs i v h = refl
  take-set_out (suc n) [] i v h = refl
  take-set_out (suc n) (x ∷ xs) zero v h = absurd (omega arith)
  take-set_out (suc n) (x ∷ xs) (suc i) v h = ap (◌∷◌ x) (take-set_out n xs i v (omega arith))

  take-nil : (len : ℕ) → take len (let e : List A = [] in e) ≡ []
  take-nil zero = refl
  take-nil (suc n) = refl

  pub slice-set_in :
      (off len : ℕ) (xs : List A) (i : ℕ) (v : A)
      → i < len
      → slice off len (set xs (off + i) v) ≡ set (slice off len xs) i v
  slice-set_in zero len xs i v h =
      let e : 0 + i ≡ i = omega arith in rw e (take-set_in len xs i v h)
  slice-set_in (suc off) len [] i v h = rw (take-nil len)
  slice-set_in (suc off) len (x ∷ xs) i v h =
      let e : suc off + i ≡ suc (off + i) = omega arith in rw e (slice-set_in off len xs i v h)

  pub slice-set_out :
      (off len : ℕ) (xs : List A) (j : ℕ) (v : A)
      → (j < off) ⊎ (off + len ≤ j)
      → slice off len (set xs j v) ≡ slice off len xs
  slice-set_out zero len xs j v (inl h) = absurd (omega arith)
  slice-set_out zero len xs j v (inr h) = take-set_out len xs j v (omega arith)
  slice-set_out (suc off) len [] j v h = refl
  slice-set_out (suc off) len (x ∷ xs) zero v h = refl
  slice-set_out (suc off) len (x ∷ xs) (suc j) v (inl h) =
      slice-set_out off len xs j v (inl (omega arith))
  slice-set_out (suc off) len (x ∷ xs) (suc j) v (inr h) =
      slice-set_out off len xs j v (inr (omega arith))
