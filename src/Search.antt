-- ===== src/Search.antt =====
-- hw2/hw2_2: the search for a file below a directory. `opendir` of `full_path` gives the directory that was read, which
-- holds as long as no path has more than 1023 bytes; a directory that cannot be opened is one with no entries.
mod Lines
mod Paths
mod Program
mod Tests
use file_system_homework.Base.{
  ℕ, ◌-◌, Bool, true, false, ◌||◌, List, [], ◌∷◌, ◌++◌, take, ◌==◌, same_text, if◌then◌else◌,
}

-- What `readdir` gives, one entry after the other: a directory (`DT_DIR`) with what is inside, or anything else.
pub data Entries : Type 0 where
  nothing : Entries
  plain : (name : List ℕ) (rest : Entries) → Entries
  folder : (name : List ℕ) (inside rest : Entries) → Entries

abbrev pub starts_with_dot : List ℕ → Bool
starts_with_dot [] = false
starts_with_dot (c ∷ name) = c == b'.'

-- Both tests that lead to `continue`.
pub is_skipped : List ℕ → Bool
is_skipped name =
    (same_text name (b'.' ∷ []) || same_text name (b'.' ∷ b'.' ∷ [])) || starts_with_dot name

pub full_path : List ℕ → List ℕ → List ℕ
full_path current_path name =
    take (1024 - 1)
      (if same_text current_path (b'/' ∷ []) then b'/' ∷ name else current_path ++ (b'/' ∷ name))

abbrev pub hit : List ℕ → List ℕ → List ℕ → List (List ℕ)
hit name target path = if same_text name target then path ∷ [] else []

-- The lines that are printed.
pub search : List ℕ → List ℕ → Entries → List (List ℕ)
search current_path target nothing = []
search current_path target (plain name rest) =
    let more = search current_path target rest in
    if is_skipped name then more else hit name target (full_path current_path name) ++ more
search current_path target (folder name inside rest) =
    let below = search (full_path current_path name) target inside in
    let more = search current_path target rest in
    if is_skipped name
    then more
    else hit name target (full_path current_path name) ++ (below ++ more)
