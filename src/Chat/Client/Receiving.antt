-- ===== src/Chat/Client/Receiving.antt =====
-- hw4/client.c: the messages that are shown.
use file_system_homework.Base.{
  append_assoc, append-nil, ℕ, ◌-◌, ◌≡◌, ◌<◌, ◌∙◌, sym, ap, arith, true, List, [], ◌∷◌, ◌++◌,
  Option, some, none, map, length, length-take, take, take_all, drop-replicate, replicate,
  overwrite_front, ltb, if◌then◌else◌, c_string, c_string-append_zeros, IsText,
}
use file_system_homework.Chat.Client.{buffer_size, shown, receive_loop}

-- `printf` shows what `recv` put into the buffer up to the first zero byte, and reads on behind the buffer exactly if `recv`
-- has filled it with bytes none of which is zero.
pub shown_lem :
    (bytes : List ℕ)
    → shown bytes ≡ (
        if ltb (length (c_string (take buffer_size bytes))) buffer_size
        then some (c_string (take buffer_size bytes))
        else none)
unfolding shown
shown_lem bytes =
    ap (λ t. if ltb (length t) buffer_size then some t else none)
      (ap c_string (
          overwrite_front (take buffer_size bytes) (replicate buffer_size 0)
            (omega (arith, length-take buffer_size bytes))
          ∙ ap (λ t. take buffer_size bytes ++ t)
              (drop-replicate {A = ℕ} (length (take buffer_size bytes)) buffer_size 0))
        ∙ c_string-append_zeros (take buffer_size bytes)
            (buffer_size - length (take buffer_size bytes)))

-- Bytes that `printf` shows: a text that leaves room for a zero byte.
abbrev pub Fits : List ℕ → Type 0
Fits bytes = IsText bytes × (0 < length bytes) × (length bytes < buffer_size)

abbrev pub AllFit : List (Option (List ℕ)) → Type 0
AllFit [] = Unit
AllFit (none ∷ rs) = AllFit rs
AllFit (some bytes ∷ rs) = Fits bytes × AllFit rs

-- What `recv` gave, without the calls that failed.
abbrev pub arrived : List (Option (List ℕ)) → List (List ℕ)
arrived [] = []
arrived (none ∷ rs) = arrived rs
arrived (some bytes ∷ rs) = bytes ∷ arrived rs

shown-Fits : (bytes : List ℕ) → Fits bytes → shown bytes ≡ some bytes
shown-Fits bytes (text, some_bytes, fits) =
    shown_lem bytes
    ∙ ap (λ t. if ltb (length t) buffer_size then some t else none)
        (ap c_string (take_all buffer_size bytes (omega (arith, fits))) ∙ text)
    ∙ ground (arith, fits)

receive_loop-shown :
    (bytes : List ℕ) (rs : List (Option (List ℕ))) (texts : List (Option (List ℕ)))
    → Fits bytes
    → receive_loop (some bytes ∷ rs) texts ≡ receive_loop rs (texts ++ (some bytes ∷ []))
unfolding receive_loop
receive_loop-shown [] rs texts (text, some_bytes, fits) = absurd (omega (arith, some_bytes))
receive_loop-shown (c ∷ bytes) rs texts fits =
    ap (λ s. receive_loop rs (texts ++ (s ∷ []))) (shown-Fits (c ∷ bytes) fits)

-- Whatever calls of `recv` fail on the way: the handler shows every message, each as it came, and ends when the server
-- hangs up, if each message is a text of 1 to 1023 bytes, none of which is zero.
pub receive_loop-texts :
    (rs later texts : List (Option (List ℕ)))
    → AllFit rs
    → receive_loop (rs ++ (some [] ∷ later)) texts
      ≡ record { texts = texts ++ map some (arrived rs); ended = true }
unfolding receive_loop
receive_loop-texts [] later texts fit =
    ap (λ t. record { texts = t; ended = true }) (sym (append-nil texts))
receive_loop-texts (none ∷ rs) later texts fit = receive_loop-texts rs later texts fit
receive_loop-texts (some bytes ∷ rs) later texts (fits, fit) =
    receive_loop-shown bytes (rs ++ (some [] ∷ later)) texts fits
    ∙ receive_loop-texts rs later (texts ++ (some bytes ∷ [])) fit
    ∙ ap (λ t. record { texts = t; ended = true })
        (append_assoc texts (some bytes ∷ []) (map some (arrived rs)))
