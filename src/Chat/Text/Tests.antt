-- ===== src/Chat/Text/Tests.antt =====
-- The texts at a few numbers.
use file_system_homework.Base.{◌≡◌, refl, [], ◌∷◌, some, c_string, read_into, overwrite}
use file_system_homework.Chat.Text.{show_id, recv_buffer, chat_msg}
use file_system_homework.Base.Digits.{show_digits}

numbers : (show_id (some 1024) ≡ b'1' ∷ b'0' ∷ b'2' ∷ b'4' ∷ []) × (show_id (some 0) ≡ b'0' ∷ [])
unfolding show_id show_digits
numbers = (refl, refl)

hello :
    chat_msg (some 12) (recv_buffer (b'h' ∷ b'i' ∷ 10 ∷ []))
    ≡ b'[' ∷ b'C' ∷ b'l' ∷ b'i' ∷ b'e' ∷ b'n' ∷ b't' ∷ b' ' ∷ b'1' ∷ b'2' ∷ b']' ∷ b':' ∷ b' '
      ∷ b'h' ∷ b'i' ∷ 10 ∷ []
unfolding chat_msg recv_buffer show_id show_digits c_string read_into overwrite
hello = refl
