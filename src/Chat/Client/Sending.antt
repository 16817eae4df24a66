-- ===== src/Chat/Client/Sending.antt =====
-- hw4/client.c: the loop that sends what is typed, line by line.
use file_system_homework.Base.{
  take-length, drop-length, append_assoc, append-nil, ℕ, zero, suc, ◌-◌, ◌≡◌, ◌≤◌, ◌<◌, ◌∙◌, refl,
  sym, ap, ap₂, arith, Bool, true, false, ◌||◌, List, [], ◌∷◌, ◌++◌, Option, some, length,
  length-append, take, take_all, drop, ◌==◌, c_string, c_string-read_into, IsText, read_into,
}
use file_system_homework.Chat.Client.{
  buffer_size, line_length, starts_with, exit_word, typed, send_loop,
}

abbrev pub has_newline : List ℕ → Bool
has_newline [] = false
has_newline (c ∷ cs) = c == 10 || has_newline cs

-- A line that fits the buffer and is not a word to leave by.
pub record IsLine (line : List ℕ) : Type 0 where
  pub body : List ℕ
  pub shape : line ≡ body ++ (10 ∷ [])
  pub one_line : has_newline body ≡ false
  pub fits : length line < buffer_size
  pub text : IsText line
  pub stays : starts_with exit_word line ≡ false

abbrev pub AreLines : List (List ℕ) → Type 0
AreLines [] = Unit
AreLines (l ∷ ls) = IsLine l × AreLines ls

-- Each `send` takes all that there is.
abbrev pub AreWhole : List (Option ℕ) → Type 0
AreWhole [] = Unit
AreWhole (r ∷ rs) = ((m : ℕ) × (r ≡ some m) × (buffer_size ≤ m)) × AreWhole rs

abbrev pub concat : List (List ℕ) → List ℕ
concat [] = []
concat (l ∷ ls) = l ++ concat ls

line_length-body :
    (room : ℕ) (body rest : List ℕ)
    → has_newline body ≡ false
    → length body < room
    → line_length room (body ++ (10 ∷ rest)) ≡ suc (length body)
unfolding line_length
line_length-body zero body rest h l = absurd (omega (arith, l))
line_length-body (suc room) [] rest h l = refl
line_length-body (suc room) (c ∷ body) rest h l = ground (arith, h, line_length-body room body rest)

-- What `fgets` finds where a line begins.
module _ (line rest : List ℕ) (is : IsLine line) where
  length-line : length line ≡ suc (length is.body)
  length-line = omega (arith, ap length is.shape, length-append is.body (10 ∷ []))

  line_length-line : line_length (buffer_size - 1) (line ++ rest) ≡ suc (length is.body)
  line_length-line =
      ap (λ l. line_length (buffer_size - 1) (l ++ rest)) is.shape
      ∙ ap (line_length (buffer_size - 1)) (append_assoc is.body (10 ∷ []) rest)
      ∙ line_length-body (buffer_size - 1) is.body rest is.one_line
          (omega (arith, is.fits, length-line))

  typed-line : typed (line ++ rest) ≡ line
  unfolding typed
  typed-line =
      ap (λ n. c_string (read_into buffer_size (take n (line ++ rest))))
        (line_length-line ∙ sym length-line)
      ∙ ap (λ t. c_string (read_into buffer_size t)) (take-length line rest)
      ∙ c_string-read_into buffer_size line (omega arith)
      ∙ ap c_string (take_all (buffer_size - 1) line (omega (arith, is.fits)))
      ∙ is.text

  -- A round that sends a line.
  send_loop-line :
      (m : ℕ) (rs : List (Option ℕ)) (stream : List ℕ)
      → buffer_size ≤ m
      → send_loop (some m ∷ rs) (line ++ rest) stream ≡ send_loop rs rest (stream ++ line)
  unfolding send_loop
  send_loop-line m rs stream h =
      rw
        (
          send_loop,
          line_length-line,
          typed-line,
          is.stays,
          typed-line,
          take_all m line (omega (arith, h, is.fits)),
        )
        (ap (λ n. send_loop rs (drop n (line ++ rest)) (stream ++ line)) (sym length-line)
          ∙ ap (λ r. send_loop rs r (stream ++ line)) (drop-length line rest))

-- The rounds that send the lines.
pub send_loop-lines :
    (lines : List (List ℕ)) (rs : List (Option ℕ)) (tail stream : List ℕ)
    → AreLines lines
    → AreWhole rs
    → length lines ≤ length rs
    → send_loop rs (concat lines ++ tail) stream
      ≡ send_loop (drop (length lines) rs) tail (stream ++ concat lines)
send_loop-lines [] rs tail stream is whole enough = ap (send_loop rs tail) (sym (append-nil stream))
send_loop-lines (l ∷ ls) [] tail stream is whole enough = absurd (omega (arith, enough))
send_loop-lines (l ∷ ls) (r ∷ rs) tail stream (is, are) ((m, e, h), whole) enough =
    ap₂ (λ t q. send_loop (q ∷ rs) t stream) (append_assoc l (concat ls) tail) e
    ∙ send_loop-line l (concat ls ++ tail) is m rs stream h
    ∙ send_loop-lines ls rs tail (stream ++ l) are whole (omega (arith, enough))
    ∙ ap (send_loop (drop (length ls) rs) tail) (append_assoc stream l (concat ls))

-- The word to leave by, whatever stands behind it.
typed-exit : (tail : List ℕ) → starts_with exit_word (typed (exit_word ++ tail)) ≡ true
unfolding typed line_length c_string
typed-exit tail = ap (starts_with exit_word) (
    c_string-read_into buffer_size
      (take (line_length (buffer_size - 1) (exit_word ++ tail)) (exit_word ++ tail)) (omega arith))

pub send_loop-exit :
    (rs : List (Option ℕ)) (tail stream : List ℕ)
    → 0 < length rs
    → send_loop rs (exit_word ++ tail) stream ≡ record { stream = stream; ended = true }
unfolding send_loop line_length
send_loop-exit [] tail stream h = absurd (omega (arith, h))
send_loop-exit (r ∷ rs) tail stream h = rw (send_loop, typed-exit tail) refl

-- Nothing more to read.
pub send_loop_end :
    (rs : List (Option ℕ)) (stream : List ℕ)
    → send_loop rs [] stream ≡ record { stream = stream; ended = false }
unfolding send_loop line_length
send_loop_end [] stream = refl
send_loop_end (r ∷ rs) stream = send_loop_end rs stream
