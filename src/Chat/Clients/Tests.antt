-- ===== src/Chat/Clients/Tests.antt =====
-- A room with two clients, and the theorems at it.
use file_system_homework.Base.{◌≡◌, refl, true, false, List, [], ◌∷◌, some, c_string}
use file_system_homework.Chat.Clients.{Client, take_slot, add_client, recipients, broadcast_msg}

abbrev two : List Client
two =
    record { fd = 5; id = 1; addr = 0; is_active = true }
    ∷ record { fd = 7; id = 2; addr = 0; is_active = false }
    ∷ record { fd = 6; id = 3; addr = 0; is_active = true }
    ∷ []

-- The numbers go on, and the free slot is taken first.
second :
    add_client 8 9 (record { clients = two; total_connections = 3 })
    ≡ some (record {
      clients =
          record { fd = 5; id = 1; addr = 0; is_active = true }
          ∷ record { fd = 8; id = 4; addr = 9; is_active = true }
          ∷ record { fd = 6; id = 3; addr = 0; is_active = true }
          ∷ [];
      total_connections = 4;
    })
unfolding add_client take_slot
second = refl

to_the_other : broadcast_msg (b'h' ∷ 0 ∷ b'x' ∷ []) 5 two ≡ record { fd = 6; text = b'h' ∷ [] } ∷ []
unfolding broadcast_msg recipients c_string
to_the_other = refl
