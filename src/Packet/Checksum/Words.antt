-- ===== src/Packet/Checksum/Words.antt =====
-- The first loop of `checksum`, against the sum of the 16-bit words of a block.
use file_system_homework.Base.{
  ℕ, zero, suc, ◌+◌, ◌*◌, ◌%◌, ◌^◌, ◌≤◌, ◌<◌, ◌≡◌, List, [], ◌∷◌, ◌++◌, arith, length,
}
use file_system_homework.Packet.Bytes.{load16, store16, IsBytes}
use file_system_homework.Packet.Checksum.{sum_words}

-- The words of a block added up as numbers; an odd last byte is a word of its own.
unfoldable pub sum16 : List ℕ → ℕ
sum16 [] = 0
sum16 (last ∷ []) = last
sum16 (lo ∷ hi ∷ rest) = lo + 256 * hi + sum16 rest

-- Where the total fits 64 bits, the loop does not wrap.
pub sum_words-eq-sum16 :
    (buf : List ℕ) (acc : ℕ) → acc + sum16 buf < 2 ^ 64 → sum_words buf acc ≡ acc + sum16 buf
unfolding sum_words sum16
sum_words-eq-sum16 [] acc h = omega arith
sum_words-eq-sum16 (last ∷ []) acc h = omega arith
sum_words-eq-sum16 (lo ∷ hi ∷ rest) acc h =
    let e : (acc + (lo + 256 * hi)) % 2 ^ 64 ≡ acc + (lo + 256 * hi) = omega arith in
    rw e (omega (arith, sum_words-eq-sum16 rest (acc + (lo + 256 * hi))))

pub sum16-le : (buf : List ℕ) → IsBytes buf → sum16 buf ≤ 65535 * length buf
unfolding sum16
sum16-le [] b = omega arith
sum16-le (last ∷ []) b = omega (arith, b 0)
sum16-le (lo ∷ hi ∷ rest) b = omega (arith, b 0, b 1, sum16-le rest (λ i. b (suc (suc i))))

-- The words of an even block and of what follows it add up.
pub sum16-append :
    (k : ℕ) (xs ys : List ℕ) → length xs ≡ 2 * k → sum16 (xs ++ ys) ≡ sum16 xs + sum16 ys
unfolding sum16
sum16-append k [] ys h = omega arith
sum16-append k (x ∷ []) ys h = absurd (omega arith)
sum16-append zero (x ∷ y ∷ xs) ys h = absurd (omega arith)
sum16-append (suc k) (x ∷ y ∷ xs) ys h = omega (arith, sum16-append k xs ys (omega arith))

-- Writing a word at an even offset changes the sum by the difference.
pub sum16-store16 :
    (k : ℕ) (buf : List ℕ) (v : ℕ)
    → 2 * k + 1 < length buf
    → sum16 (store16 buf (2 * k) v) + load16 buf (2 * k) ≡ sum16 buf + v % 65536
unfolding sum16
sum16-store16 k [] v h = absurd (omega arith)
sum16-store16 k (x ∷ []) v h = absurd (omega arith)
sum16-store16 zero (x ∷ y ∷ xs) v h = omega arith
sum16-store16 (suc k) (x ∷ y ∷ xs) v h =
    let e : 2 * suc k ≡ suc (suc (2 * k)) = omega arith in
    let e' : suc (suc (2 * k)) + 1 ≡ suc (suc (2 * k + 1)) = omega arith in
    rw (e, e') (omega (arith, sum16-store16 k xs v (omega arith)))
