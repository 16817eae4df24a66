-- ===== src/Chat/Text/Whole.antt =====
-- hw4: `formatted_msg` and `client_quit_msg` against the bounds of their buffers.
use file_system_homework.Base.{
  ℕ, ◌+◌, ◌^◌, ◌≤◌, ◌<◌, ◌≡◌, ◌∙◌, refl, ap, arith, List, [], ◌∷◌, ◌++◌, Option, some, none, length,
  take, take_all, length-append, length-take, c_string, c_string-read_into, IsText, c_string-append,
  c_string_idem, length-c_string,
}
use file_system_homework.Chat.Text.{show_id, recv_buffer, chat_text, chat_msg, quit_text, quit_msg}
use file_system_homework.Base.Digits.{
  length-show_digits, read_digits, read_digits-show_digits, show_digits-IsText,
}

length-show_id : (id : Option ℕ) → length (show_id id) ≤ 10
unfolding show_id
length-show_id none = omega arith
length-show_id (some n) = length-show_digits 10 n []

show_id-IsText : (id : Option ℕ) → IsText (show_id id)
unfolding show_id c_string
show_id-IsText none = refl
show_id-IsText (some n) = show_digits-IsText 10 n [] refl

length-chat_text : (id : Option ℕ) (text : List ℕ) → length (chat_text id text) ≤ 21 + length text
length-chat_text id text =
    omega (arith, length-show_id id, length-append (show_id id) (b']' ∷ b':' ∷ b' ' ∷ text))

length-quit_text : (id : Option ℕ) → length (quit_text id) ≤ 33
length-quit_text id = omega (
  arith,
  length-show_id id,
  length-append (show_id id) (
      b' ' ∷ b'D' ∷ b'i' ∷ b's' ∷ b'c' ∷ b'o' ∷ b'n' ∷ b'n' ∷ b'e' ∷ b'c' ∷ b't' ∷ b'e' ∷ b'd'
      ∷ b'.' ∷ 10 ∷ []),
)

IsText-append : (xs ys : List ℕ) → IsText xs → IsText ys → IsText (xs ++ ys)
IsText-append xs ys a b = c_string-append xs ys a ∙ ap (◌++◌ xs) b

chat_text-IsText : (id : Option ℕ) (text : List ℕ) → IsText text → IsText (chat_text id text)
unfolding c_string
chat_text-IsText id text t =
    IsText-append (b'[' ∷ b'C' ∷ b'l' ∷ b'i' ∷ b'e' ∷ b'n' ∷ b't' ∷ b' ' ∷ [])
      (show_id id ++ (b']' ∷ b':' ∷ b' ' ∷ text)) refl
      (IsText-append (show_id id) (b']' ∷ b':' ∷ b' ' ∷ text) (show_id-IsText id)
        (IsText-append (b']' ∷ b':' ∷ b' ' ∷ []) text refl t))

quit_text-IsText : (id : Option ℕ) → IsText (quit_text id)
unfolding c_string
quit_text-IsText id =
    IsText-append (b'C' ∷ b'l' ∷ b'i' ∷ b'e' ∷ b'n' ∷ b't' ∷ b' ' ∷ []) (show_id id ++ end) refl
      (IsText-append (show_id id) end (show_id-IsText id) refl)
  where
    end : List ℕ
    end =
        b' ' ∷ b'D' ∷ b'i' ∷ b's' ∷ b'c' ∷ b'o' ∷ b'n' ∷ b'n' ∷ b'e' ∷ b'c' ∷ b't' ∷ b'e' ∷ b'd'
        ∷ b'.' ∷ 10 ∷ []

-- The text sent for the bytes that `recv` gave is whole: `snprintf` cuts nothing off, and `strlen` measures all of
-- it.
pub chat_msg-recv_buffer :
    (id : Option ℕ) (bytes : List ℕ)
    → c_string (chat_msg id (recv_buffer bytes)) ≡ chat_text id (c_string (take 1023 bytes))
unfolding chat_msg recv_buffer
chat_msg-recv_buffer id bytes =
    ap (λ t. c_string (take 1087 (chat_text id t))) (c_string-read_into 1024 bytes (omega arith))
    ∙ ap c_string
        (take_all 1087 (chat_text id text) (omega (arith, length-chat_text id text, short)))
    ∙ chat_text-IsText id text (c_string_idem (take 1023 bytes))
  where
    text : List ℕ
    text = c_string (take 1023 bytes)

    short : length text ≤ 1023
    short = omega (arith, length-c_string (take 1023 bytes), length-take 1023 bytes)

-- The same for the text that says that a client left.
pub quit_msg_lem : (id : Option ℕ) → c_string (quit_msg id) ≡ quit_text id
unfolding quit_msg
quit_msg_lem id =
    ap c_string (take_all 1023 (quit_text id) (omega (arith, length-quit_text id)))
    ∙ quit_text-IsText id

-- The number of a client, ten digits at most, can be read back from the digits in its messages.
pub read_digits-show_id : (n : ℕ) → n < 10 ^ 10 → read_digits 0 (show_id (some n)) ≡ n
unfolding show_id read_digits
read_digits-show_id n h = read_digits-show_digits 10 n [] h
