-- ===== src/Base/Digits.antt =====
-- The digits that "%d" prints of a number that is not negative.
use file_system_homework.Base.{
  ℕ, zero, suc, ◌+◌, ◌-◌, ◌*◌, ◌/◌, ◌%◌, ◌^◌, ◌≤◌, ◌<◌, ◌≡◌, arith, List, [], ◌∷◌, length, ◌==◌,
  if◌then◌else◌, inl, inr, ◌∙◌, subst, Bool-cases, ==_iff, ap, IsText, c_string,
}

-- Digit by digit from the last one.
unfoldable pub show_digits : ℕ → ℕ → List ℕ → List ℕ
show_digits zero n acc = acc
show_digits (suc fuel) n acc =
    let rest = (b'0' + n % 10) ∷ acc in
    let more = show_digits fuel (n / 10) rest in if n / 10 == 0 then rest else more

-- The number that digits show, after `acc`.
unfoldable pub read_digits : ℕ → List ℕ → ℕ
read_digits acc [] = acc
read_digits acc (x ∷ xs) = read_digits (acc * 10 + (x - b'0')) xs

pub length-show_digits : (k n : ℕ) (acc : List ℕ) → length (show_digits k n acc) ≤ k + length acc
unfolding show_digits
length-show_digits zero n acc = omega arith
length-show_digits (suc k) n acc =
    ground (arith, length-show_digits k (n / 10) ((b'0' + n % 10) ∷ acc))

read_digits_last :
    (n : ℕ) (acc : List ℕ) → read_digits (n / 10) ((b'0' + n % 10) ∷ acc) ≡ read_digits n acc
unfolding read_digits
read_digits_last n acc = ap (λ m. read_digits m acc) e
  where
    e : n / 10 * 10 + (b'0' + n % 10 - b'0') ≡ n
    e = omega arith

pub read_digits-show_digits :
    (k n : ℕ) (acc : List ℕ) → n < 10 ^ k → read_digits 0 (show_digits k n acc) ≡ read_digits n acc
unfolding show_digits
read_digits-show_digits zero n acc h = ap (λ m. read_digits m acc) (zero_n h)
  where
    zero_n : n < 1 → 0 ≡ n
    zero_n h = omega (arith, h)
read_digits-show_digits (suc k) n acc h = elim (Bool-cases (n / 10 == 0)) [
  | inl e ↦
      let q : n / 10 ≡ 0 = (==_iff (n / 10) 0).0 e in
      rw e (
        subst (λ m. read_digits m ((b'0' + n % 10) ∷ acc) ≡ read_digits n acc) q
          (read_digits_last n acc))
  | inr e ↦ rw e (
      read_digits-show_digits k (n / 10) ((b'0' + n % 10) ∷ acc) (quotient h)
      ∙ read_digits_last n acc)
]
  where
    quotient : n < 10 ^ suc k → n / 10 < 10 ^ k
    quotient h = omega (arith, h)

pub show_digits-IsText : (k n : ℕ) (acc : List ℕ) → IsText acc → IsText (show_digits k n acc)
unfolding show_digits c_string
show_digits-IsText zero n acc t = t
show_digits-IsText (suc k) n acc t =
    ground (arith, show_digits-IsText k (n / 10) ((b'0' + n % 10) ∷ acc))
