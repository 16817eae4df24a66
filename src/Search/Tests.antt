-- ===== src/Search/Tests.antt =====
-- hw2/hw2_2: a tree with a hidden directory.
use file_system_homework.Base.{◌≡◌, refl, [], ◌∷◌}
use file_system_homework.Search.{Entries, nothing, plain, folder, full_path, is_skipped, search}

abbrev tree : Entries
tree =
    folder (b'.' ∷ b'g' ∷ []) (plain (b'a' ∷ []) nothing)
      (folder (b'd' ∷ []) (plain (b'a' ∷ []) nothing) (plain (b'b' ∷ []) nothing))

one_line : search (b'.' ∷ []) (b'a' ∷ []) tree ≡ (b'.' ∷ b'/' ∷ b'd' ∷ b'/' ∷ b'a' ∷ []) ∷ []
unfolding search full_path is_skipped
one_line = refl
