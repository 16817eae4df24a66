-- ===== src/Listing/Tests.antt =====
-- hw2/hw2_1: a small directory, its long form, and a table.
use file_system_homework.Base.{
  ℕ, ◌%◌, ◌≡◌, arith, refl, List, [], ◌∷◌, ◌++◌, some, none, same_text, if◌then◌else◌, drop,
  replicate,
}
use file_system_homework.Base.Digits.{show_digits}
use file_system_homework.Listing.{permissions, columns, dash_l}
use file_system_homework.Listing.Modes.{read_letters, read_letters-permissions}
use file_system_homework.Listing.Long.{System, Stat, long_line, link_text}
use file_system_homework.Listing.Programs.{table, main_1, main_2, main_3}
use file_system_homework.Listing.Listed.{main_1-main_3}
use file_system_homework.Listing.Aligned.{long_line-name}

-- drwxr-x--x
a_directory :
    permissions 0x41e9 ≡ b'd' ∷ b'r' ∷ b'w' ∷ b'x' ∷ b'r' ∷ b'-' ∷ b'x' ∷ b'-' ∷ b'-' ∷ b'x' ∷ []
unfolding permissions
a_directory = refl

read_letters-permissions_example : read_letters 0 (drop 1 (permissions 0x41e9)) ≡ 0x41e9 % 512
read_letters-permissions_example = read_letters-permissions 0x41e9

abbrev here : List ℕ
here = b'.' ∷ []

abbrev a_name : List ℕ
a_name = b'a' ∷ []

abbrev names : List (List ℕ)
names = a_name ∷ here ∷ (b'b' ∷ []) ∷ []

-- A link of ten bytes, of a user with a name.
abbrev a_stat : Stat
a_stat = record { mode = 0xa1ff; uid = 7; gid = 8; size = 10; mtime = 0 }

-- The current directory has the names; of the first `lstat` gives the link.
abbrev sys : System
sys = record {
  opendir = λ path. some names;
  lstat = λ path.
      if same_text path a_name
      then some a_stat
      else if same_text path (b'.' ∷ b'/' ∷ a_name)
      then some a_stat
      else none;
  readlink = λ path. some (b'b' ∷ []);
  getpwuid = λ uid. if same_text (uid ∷ []) (7 ∷ []) then some (b'm' ∷ b'e' ∷ []) else none;
  getgrgid = λ gid. none;
  time_text = λ t. replicate 14 b'0';
}

-- No `lstat` succeeds.
abbrev away : System
away = record sys { lstat = λ path. none }

two_columns :
    (main_2 sys []).printed
    ≡ (b'a' ∷ replicate 19 b' ')
      ++ (b' ' ∷ 9 ∷ 9 ∷ 9 ∷ b'b' ∷ replicate 19 b' ' ++ (b' ' ∷ 9 ∷ 9 ∷ 9 ∷ 10 ∷ []))
unfolding main_2 table columns
two_columns = refl

abbrev args : List (List ℕ)
args = dash_l ∷ here ∷ []

main_1-main_3_example : main_1 sys [] ≡ main_3 sys (dash_l ∷ [])
main_1-main_3_example =
    main_1-main_3 sys names refl
      ((omega arith, refl, refl), ((omega arith, refl, refl), ((omega arith, refl, refl), tt)))

long_line-name_example :
    drop 53 (long_line sys a_name a_name a_stat)
    ≡ a_name ++ (link_text sys a_name a_stat ++ (10 ∷ []))
unfolding show_digits
long_line-name_example =
    long_line-name sys a_name a_name a_stat (omega arith) (omega arith) (omega arith) refl
