-- ===== src/Packet/Receiver/Tests.antt =====
-- Datagrams, and the theorem at one of them.
use file_system_homework.Base.{c_string, read_into, ℕ, ◌≡◌, refl, List, [], ◌∷◌, some, overwrite}
use file_system_homework.Packet.Receiver.{fill_buffer, failed, datagram, run}

abbrev hi : List ℕ
hi = b'h' ∷ b'i' ∷ []

-- A zero byte ends the text, and a failure closes the descriptor twice.
two_lines : run (datagram (b'h' ∷ b'i' ∷ 0 ∷ b'x' ∷ []) 1 0xce56 ∷ failed ∷ []) ≡ record {
  lines = record { message = b'h' ∷ b'i' ∷ []; source_ip = 1; source_port = 22222 } ∷ [];
  closes = some 2;
}
unfolding run c_string fill_buffer read_into overwrite
two_lines = refl
