-- ===== src/Listing.antt =====
-- hw2/hw2_1: a directory listing. HW2_1_1 prints the long form, HW2_1_2 three columns, and HW2_1_3 either, by the option -l.
mod Modes
mod Columns
mod Options
pub mod Long
pub mod Programs
mod Listed
mod Aligned
mod Tests
use Prim.Native.Nat.{bit_and}
use file_system_homework.Base.{
  ℕ, suc, ◌+◌, Bool, true, false, not, List, [], ◌∷◌, ◌++◌, Option, some, none, ◌==◌, same_text,
  if◌then◌else◌,
}

-- `mode & S_IF…` for the kinds that have a letter.
abbrev pub kind_letter : ℕ → ℕ
kind_letter mode =
    let kind = bit_and mode 0xf000 in
    if kind == 0x4000
    then b'd'
    else if kind == 0xa000
    then b'l'
    else if kind == 0x2000
    then b'c'
    else if kind == 0x6000
    then b'b'
    else if kind == 0x1000
    then b'p'
    else if kind == 0xc000
    then b's'
    else b'-'

abbrev pub letter : ℕ → ℕ → ℕ → ℕ
letter mode bit c = if bit_and mode bit == 0 then b'-' else c

-- `print_permissions`: the text before the blank.
pub permissions : ℕ → List ℕ
permissions mode =
    kind_letter mode
    ∷ letter mode 256 b'r'
    ∷ letter mode 128 b'w'
    ∷ letter mode 64 b'x'
    ∷ letter mode 32 b'r'
    ∷ letter mode 16 b'w'
    ∷ letter mode 8 b'x'
    ∷ letter mode 4 b'r'
    ∷ letter mode 2 b'w'
    ∷ letter mode 1 b'x'
    ∷ []

-- `entry->d_name[0] == '.'`
abbrev pub is_hidden : List ℕ → Bool
is_hidden [] = false
is_hidden (c ∷ name) = c == b'.'

-- A name that is printed, and whether a line break comes behind it, or tabs.
pub record Cell : Type 0 where
  pub name : List ℕ
  pub breaks : Bool

abbrev pub next_count : ℕ → ℕ
next_count count = if count == 3 then 1 else count + 1

-- The loop over the entries, with `count`.
pub columns : ℕ → List (List ℕ) → List Cell
columns count [] = []
columns count (name ∷ names) =
    let cell : Cell = record { name = name; breaks = count == 3 } in
    if is_hidden name then columns count names else cell ∷ columns (next_count count) names

-- What the command line asks for: `is_l` and `target_path`.
pub record Asked : Type 0 where
  pub is_l : Bool
  pub target_path : List ℕ

abbrev pub dash_l : List ℕ
dash_l = b'-' ∷ b'l' ∷ []

-- The loop over `argv`, from the second word on.
pub read_options : List (List ℕ) → Asked → Asked
read_options [] a = a
read_options (w ∷ ws) a =
    read_options ws
      (if same_text w dash_l then record a { is_l = true } else record a { target_path = w })

pub ask : List (List ℕ) → Asked
ask args = read_options args (record { is_l = false; target_path = b'.' ∷ [] })
