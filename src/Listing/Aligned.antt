-- ===== src/Listing/Aligned.antt =====
-- hw2/hw2_1: where the name stands in a line of the long form.
use file_system_homework.Base.{
  ℕ, suc, ◌+◌, ◌-◌, ◌≡◌, ◌≤◌, ◌∙◌, ap, subst, arith, List, [], ◌∷◌, ◌++◌, length, length-append,
  length-replicate, drop, replicate,
}
use file_system_homework.Base.Digits.{show_digits}
use file_system_homework.Listing.{permissions}
use file_system_homework.Listing.Long.{
  System, Stat, long_line, link_text, or_unknown, pad_left, pad_right,
}

drop-block : (n m : ℕ) (xs ys : List ℕ) → length xs ≡ n → drop (n + m) (xs ++ ys) ≡ drop m ys
drop-block n m xs ys e = subst (λ k. drop (k + m) (xs ++ ys) ≡ drop m ys) e (past m xs)
  where
    past : (m : ℕ) (xs : List ℕ) → drop (length xs + m) (xs ++ ys) ≡ drop m ys
    past m [] = let z : 0 + m ≡ m = omega arith in ap (λ k. drop k ys) z
    past m (x ∷ xs) =
        let z : suc (length xs) + m ≡ suc (length xs + m) = omega arith in
        ap (λ k. drop k (x ∷ (xs ++ ys))) z ∙ past m xs

length-pad_right :
    (width : ℕ) (text : List ℕ) → length text ≤ width → length (pad_right width text) ≡ width
length-pad_right width text h = omega (
  arith,
  h,
  length-append text (replicate (width - length text) b' '),
  length-replicate {A = ℕ} (width - length text) b' ',
)

length-pad_left :
    (width : ℕ) (text : List ℕ) → length text ≤ width → length (pad_left width text) ≡ width
length-pad_left width text h = omega (
  arith,
  h,
  length-append (replicate (width - length text) b' ') text,
  length-replicate {A = ℕ} (width - length text) b' ',
)

-- In every line of the long form the name stands behind 53 bytes, if the names of user and group have at most 8 bytes, the size
-- at most 8 digits, and the time 14 bytes, as "%m/%d/%y %H:%M" has.
pub long_line-name :
    (sys : System) (path name : List ℕ) (buf : Stat)
    → length (or_unknown (sys.getpwuid buf.uid)) ≤ 8
    → length (or_unknown (sys.getgrgid buf.gid)) ≤ 8
    → length (show_digits 19 buf.size []) ≤ 8
    → length (sys.time_text buf.mtime) ≡ 14
    → drop 53 (long_line sys path name buf) ≡ name ++ (link_text sys path buf ++ (10 ∷ []))
unfolding long_line permissions
long_line-name sys path name buf user group size time =
    drop-block 8 34 (pad_right 8 (or_unknown (sys.getpwuid buf.uid))) _
      (length-pad_right 8 (or_unknown (sys.getpwuid buf.uid)) user)
    ∙ drop-block 8 25 (pad_right 8 (or_unknown (sys.getgrgid buf.gid))) _
        (length-pad_right 8 (or_unknown (sys.getgrgid buf.gid)) group)
    ∙ drop-block 8 16 (pad_left 8 (show_digits 19 buf.size [])) _
        (length-pad_left 8 (show_digits 19 buf.size []) size)
    ∙ drop-block 14 1 (sys.time_text buf.mtime) _ time
