-- ===== src/Copy/Program/Tests.antt =====
-- hw3: `main` on a file of three bytes, with two buffers.
use file_system_homework.Base.{true, false, List, [], ◌∷◌, some, none}
use file_system_homework.Copy.Blocking.{Round}
use file_system_homework.Copy.Program.{World, Calls}

abbrev two_bytes : Round
two_bytes = record { read = some 1; write = some 65536 }

abbrev rounds : List Round
rounds = two_bytes ∷ two_bytes ∷ two_bytes ∷ two_bytes ∷ []

abbrev small : World
small = record { input = 7 ∷ 8 ∷ 9 ∷ []; output = none; open_fds = 3; rings = 0; blocks = 0 }

abbrev good : Calls
good = record { src_opens = true; dest_opens = true; stats = true }

abbrev no_dest : Calls
no_dest = record { src_opens = true; dest_opens = false; stats = true }
