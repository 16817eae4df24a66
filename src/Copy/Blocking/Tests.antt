-- ===== src/Copy/Blocking/Tests.antt =====
-- `blocking_io` of hw3: short reads and a short write.
use file_system_homework.Base.{◌≡◌, refl, true, [], ◌∷◌, some}
use file_system_homework.Copy.Blocking.{Round, copy_loop}

abbrev two_bytes : Round
two_bytes = record { read = some 1; write = some 65536 }

short_write :
    copy_loop (record { read = some 3; write = some 1 } ∷ two_bytes ∷ []) (1 ∷ 2 ∷ 3 ∷ []) []
    ≡ record { dest = 1 ∷ []; ended = true }
unfolding copy_loop
short_write = refl
