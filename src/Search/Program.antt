-- ===== src/Search/Program.antt =====
-- hw2/hw2_2: `main`, and what it says when nothing was found.
use file_system_homework.Base.{ℕ, Bool, true, false, List, [], ◌∷◌, Option, some, none}
use file_system_homework.Search.{Entries, search}

-- The exit code; the two lines of the head, with their fields; the lines of `search`; and whether the line "cannot find the
-- corresponding file" is printed, which it is if no line before it has set `found`.
pub record Exit : Type 0 where
  pub code : ℕ
  pub head : Option (List ℕ × List ℕ)
  pub lines : List (List ℕ)
  pub not_found : Bool

abbrev is_empty : List (List ℕ) → Bool
is_empty [] = true
is_empty (line ∷ lines) = false

abbrev searching : (List ℕ → Entries) → (ori_dir target_file : List ℕ) → Exit
searching tree ori_dir target_file =
    let lines = search ori_dir target_file (tree ori_dir) in
    record {
      code = 0;
      head = some (ori_dir, target_file);
      lines = lines;
      not_found = is_empty lines;
    }

-- `args` are the words behind the name of the program; `tree` is what `opendir` finds at a path.
pub main : (tree : List ℕ → Entries) → (args : List (List ℕ)) → Exit
main tree [] = record { code = 1; head = none; lines = []; not_found = false }
main tree (target_file ∷ []) = searching tree (b'.' ∷ []) target_file
main tree (ori_dir ∷ target_file ∷ []) = searching tree ori_dir target_file
main tree (a ∷ b ∷ c ∷ args) = record { code = 1; head = none; lines = []; not_found = false }
