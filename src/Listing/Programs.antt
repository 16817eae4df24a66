-- ===== src/Listing/Programs.antt =====
-- hw2/hw2_1: `main` of the three programs; `args` are the words behind the name of the program.
use file_system_homework.Base.{
  ℕ, ◌-◌, ◌≡◌, refl, List, [], ◌∷◌, ◌++◌, some, none, take, if◌then◌else◌,
}
use file_system_homework.Listing.{Cell, columns, ask}
use file_system_homework.Listing.Long.{System, pad_right, long_loop}

-- The exit code and what stands on the standard output.
pub record Exit : Type 0 where
  pub code : ℕ
  pub printed : List ℕ

-- "%-20s" and what follows it, up to the line break or the tabs.
unfoldable pub table : (gap : List ℕ) → List Cell → List ℕ
table gap [] = []
table gap (c ∷ cells) =
    pad_right 20 c.name
    ++ (gap ++ ((if c.breaks then 10 ∷ [] else 9 ∷ 9 ∷ 9 ∷ []) ++ table gap cells))

-- `argv[1]`, if there is one.
abbrev pub first_or_here : List (List ℕ) → List ℕ
first_or_here [] = b'.' ∷ []
first_or_here (path ∷ args) = path

-- `snprintf(full_path, sizeof(full_path), "%s/%s", target_path, entry->d_name)`
abbrev pub full_path : (target_path name : List ℕ) → List ℕ
full_path target_path name = take (1024 - 1) (target_path ++ (b'/' ∷ name))

-- `return 1` if the directory does not open.
abbrev pub with_names : System → List ℕ → (List (List ℕ) → List ℕ) → Exit
with_names sys path list = elim (sys.opendir path) [
  | none ↦ record { code = 1; printed = [] }
  | some names ↦ record { code = 0; printed = list names }
]

unfoldable pub main_1 : System → List (List ℕ) → Exit
main_1 sys args = with_names sys (first_or_here args) (long_loop sys (λ name. name))

unfoldable pub main_2 : System → List (List ℕ) → Exit
main_2 sys args =
    with_names sys (first_or_here args) (λ names. table (b' ' ∷ []) (columns 1 names) ++ (10 ∷ []))

unfoldable pub main_3 : System → List (List ℕ) → Exit
main_3 sys args =
    let a = ask args in
    with_names sys a.target_path (λ names.
      if a.is_l
      then long_loop sys (full_path a.target_path) names
      else table [] (columns 1 names) ++ (10 ∷ []))

pub with_names-some :
    (sys : System) (path : List ℕ) (list : List (List ℕ) → List ℕ) (names : List (List ℕ))
    → sys.opendir path ≡ some names
    → with_names sys path list ≡ record { code = 0; printed = list names }
with_names-some sys path list names e = rw (with_names, e) refl
