-- ===== src/Listing/Long.antt =====
-- hw2/hw2_1: the long form of HW2_1_1 and HW2_1_3. What the system gives is an argument.
use Prim.Native.Nat.{bit_and}
use file_system_homework.Base.{
  ℕ, ◌-◌, Bool, List, [], ◌∷◌, ◌++◌, Option, some, none, length, take, replicate, ◌==◌,
  if◌then◌else◌, c_string,
}
use file_system_homework.Base.Digits.{show_digits}
use file_system_homework.Listing.{is_hidden, permissions}

-- `struct stat`, as far as it is read.
pub record Stat : Type 0 where
  pub mode : ℕ
  pub uid : ℕ
  pub gid : ℕ
  pub size : ℕ
  pub mtime : ℕ

-- `opendir` with the names that `readdir` gives, `lstat`, `readlink`, `getpwuid`, `getgrgid`, and the text of `localtime` and
-- `strftime`; `none` where a call fails.
pub record System : Type 0 where
  pub opendir : List ℕ → Option (List (List ℕ))
  pub lstat : List ℕ → Option Stat
  pub readlink : List ℕ → Option (List ℕ)
  pub getpwuid : ℕ → Option (List ℕ)
  pub getgrgid : ℕ → Option (List ℕ)
  pub time_text : ℕ → List ℕ

-- "%-8s", with the width as an argument, and "%8ld" of a number below 2 ^ 63.
abbrev pub pad_right : ℕ → List ℕ → List ℕ
pad_right width text = text ++ replicate (width - length text) b' '

abbrev pub pad_left : ℕ → List ℕ → List ℕ
pad_left width text = replicate (width - length text) b' ' ++ text

abbrev pub unknown : List ℕ
unknown = b'u' ∷ b'n' ∷ b'k' ∷ b'n' ∷ b'o' ∷ b'w' ∷ b'n' ∷ []

abbrev pub or_unknown : Option (List ℕ) → List ℕ
or_unknown none = unknown
or_unknown (some name) = name

-- `S_ISLNK`
abbrev pub is_link : ℕ → Bool
is_link mode = bit_and mode 0xf000 == 0xa000

module _ (sys : System) where
  -- " -> %s", of at most 255 bytes of the link.
  abbrev pub link_text : List ℕ → Stat → List ℕ
  link_text path buf =
      if is_link buf.mode
      then elim (sys.readlink path) [
        | none ↦ []
        | some text ↦ b' ' ∷ b'-' ∷ b'>' ∷ b' ' ∷ c_string (take 255 text)
      ]
      else []

  -- What is printed of an entry.
  unfoldable pub long_line : (path name : List ℕ) → Stat → List ℕ
  long_line path name buf =
      permissions buf.mode
      ++ (b' ' ∷ pad_right 8 (or_unknown (sys.getpwuid buf.uid))
          ++ (b' ' ∷ pad_right 8 (or_unknown (sys.getgrgid buf.gid))
              ++ (b' ' ∷ pad_left 8 (show_digits 19 buf.size [])
                  ++ (b' ' ∷ sys.time_text buf.mtime
                      ++ (b' ' ∷ name ++ (link_text path buf ++ (10 ∷ [])))))))

  -- The loop over the entries; `path_of` gives the path that `lstat` and `readlink` take.
  unfoldable pub long_loop : (List ℕ → List ℕ) → List (List ℕ) → List ℕ
  long_loop path_of [] = []
  long_loop path_of (name ∷ names) =
      let rest = long_loop path_of names in
      if is_hidden name then rest else (elim (sys.lstat (path_of name)) [
        | none ↦ rest
        | some buf ↦ long_line (path_of name) name buf ++ rest
      ])
