-- ===== src/Base/Text.antt =====
-- Texts in C: what "%s" prints and what `strlen` measures.
use Prim.Native.Nat.{ℕ, zero, suc, ◌-◌, ◌≤◌, ◌<◌}
use mathlib.Core.Path.{◌≡◌, refl}
use mathlib.Core.List.{List, [], ◌∷◌, ◌++◌}
use native.Mathlib.Omega.{arith}
use file_system_homework.Base.Tests.{◌==◌, if◌then◌else◌}
use file_system_homework.Base.Lists.{length, replicate, take, set, length-take, length-replicate}
use file_system_homework.Base.Memory.{overwrite, overwrite_front, drop-replicate, set-append_front}

-- The bytes at a pointer up to the first zero byte.
unfoldable pub c_string : List ℕ → List ℕ
c_string [] = []
c_string (x ∷ xs) = if x == 0 then [] else x ∷ c_string xs

c_string-zeros : (k : ℕ) → c_string (replicate k 0) ≡ []
unfolding c_string
c_string-zeros zero = refl
c_string-zeros (suc k) = refl

pub c_string-append_zeros : (xs : List ℕ) (k : ℕ) → c_string (xs ++ replicate k 0) ≡ c_string xs
unfolding c_string
c_string-append_zeros [] k = c_string-zeros k
c_string-append_zeros (x ∷ xs) k = ground (arith, c_string-append_zeros xs k)

pub length-c_string : (xs : List ℕ) → length (c_string xs) ≤ length xs
unfolding c_string
length-c_string [] = omega arith
length-c_string (x ∷ xs) = ground (arith, length-c_string xs)

-- A buffer of `size` zero bytes after a read of at most `size - 1` bytes, with a zero byte put behind them.
unfoldable pub read_into : ℕ → List ℕ → List ℕ
read_into size bytes =
    let read = take (size - 1) bytes in set (overwrite 0 read (replicate size 0)) (length read) 0

read_into_lem :
    (size : ℕ) (bytes : List ℕ)
    → 0 < size
    → read_into size bytes
      ≡ take (size - 1) bytes ++ replicate (size - length (take (size - 1) bytes)) 0
unfolding read_into
read_into_lem size bytes h =
    rw
      (
        overwrite_front read (replicate size 0)
            (omega (arith, short, length-replicate {A = ℕ} size 0)),
        drop-replicate {A = ℕ} (length read) size 0,
        room h,
      )
      (set-append_front read 0 0 (replicate (size - 1 - length read) 0))
  where
    read : List ℕ
    read = take (size - 1) bytes

    short : length read ≤ size - 1
    short = omega (arith, length-take (size - 1) bytes)

    room : 0 < size → size - length read ≡ suc (size - 1 - length read)
    room h = omega (arith, short, h)

-- The text in the buffer is that of the bytes that were read.
pub c_string-read_into :
    (size : ℕ) (bytes : List ℕ)
    → 0 < size
    → c_string (read_into size bytes) ≡ c_string (take (size - 1) bytes)
c_string-read_into size bytes h =
    rw (read_into_lem size bytes h)
      (c_string-append_zeros (take (size - 1) bytes) (size - length (take (size - 1) bytes)))

-- No byte of a text is zero.
abbrev pub IsText : List ℕ → Type 0
IsText xs = c_string xs ≡ xs

pub c_string-append : (xs ys : List ℕ) → IsText xs → c_string (xs ++ ys) ≡ xs ++ c_string ys
unfolding c_string
c_string-append [] ys t = refl
c_string-append (x ∷ xs) ys t = ground (arith, c_string-append xs ys)

pub c_string_idem : (xs : List ℕ) → IsText (c_string xs)
unfolding c_string
c_string_idem [] = refl
c_string_idem (x ∷ xs) = ground (arith, c_string_idem xs)
