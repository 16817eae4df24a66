-- ===== src/Listing/Listed.antt =====
-- hw2/hw2_1: what the programs print of a directory.
use file_system_homework.Base.{
  ℕ, ◌≡◌, ◌≤◌, ◌∙◌, refl, sym, ap, ap₂, inl, inr, List, [], ◌∷◌, ◌++◌, some, none, length, take_all,
  Bool-cases, Option-cases,
}
use file_system_homework.Listing.{is_hidden, ask, dash_l, read_options}
use file_system_homework.Listing.Long.{System, Stat, long_line, long_loop}
use file_system_homework.Listing.Programs.{with_names-some, full_path, main_1, main_3}

module _ (sys : System) where
  -- The lines of the names for which `lstat` succeeds.
  abbrev pub lines_of : (List ℕ → List ℕ) → List (List ℕ) → List ℕ
  lines_of path_of [] = []
  lines_of path_of (name ∷ names) = elim (sys.lstat (path_of name)) [
    | none ↦ lines_of path_of names
    | some buf ↦ long_line sys (path_of name) name buf ++ lines_of path_of names
  ]

  -- The names of the current directory mean the same with "./" before them, and have at most 1021 bytes.
  abbrev pub AreRelative : List (List ℕ) → Type 0
  AreRelative [] = Unit
  AreRelative (name ∷ names) =
      ((length name ≤ 1021)
        × (sys.lstat (b'.' ∷ b'/' ∷ name) ≡ sys.lstat name)
        × (sys.readlink (b'.' ∷ b'/' ∷ name) ≡ sys.readlink name))
      × AreRelative names

  full_path-relative :
      (name : List ℕ) → length name ≤ 1021 → full_path (b'.' ∷ []) name ≡ b'.' ∷ b'/' ∷ name
  full_path-relative name h = ap (λ t. b'.' ∷ b'/' ∷ t) (take_all 1021 name h)

  long_line-relative :
      (name : List ℕ) (buf : Stat)
      → sys.readlink (b'.' ∷ b'/' ∷ name) ≡ sys.readlink name
      → long_line sys (b'.' ∷ b'/' ∷ name) name buf ≡ long_line sys name name buf
  unfolding long_line
  long_line-relative name buf e = rw e refl

  long_loop-relative :
      (names : List (List ℕ))
      → AreRelative names
      → long_loop sys (λ name. name) names ≡ long_loop sys (full_path (b'.' ∷ [])) names
  unfolding long_loop
  long_loop-relative [] r = refl
  long_loop-relative (name ∷ names) ((fits, same, link), r) =
      let ih = long_loop-relative names r in
      elim (Bool-cases (is_hidden name)) [
        | inl e ↦ rw (long_loop, e) ih
        | inr e ↦ elim (Option-cases (sys.lstat name)) [
          | inl f ↦ rw (long_loop, e, full_path-relative name fits, same, f) ih
          | inr (buf, f) ↦
              rw (long_loop, e, full_path-relative name fits, same, f)
                (ap₂ ◌++◌
                  (sym (
                    ap (λ p. long_line sys p name buf) (full_path-relative name fits)
                    ∙ long_line-relative name buf link))
                  ih)
        ]
      ]

  -- In the current directory HW2_1_1 and HW2_1_3 with -l print the same, if each name means the same with "./" before it and has
  -- at most 1021 bytes.
  pub main_1-main_3 :
      (names : List (List ℕ))
      → sys.opendir (b'.' ∷ []) ≡ some names
      → AreRelative names
      → main_1 sys [] ≡ main_3 sys (dash_l ∷ [])
  unfolding main_1 main_3 ask read_options
  main_1-main_3 names e r =
      with_names-some sys (b'.' ∷ []) _ names e
      ∙ ap (λ t. record { code = 0; printed = t }) (long_loop-relative names r)
      ∙ sym (with_names-some sys (b'.' ∷ []) _ names e)

  -- For each name, `lstat` of it fails in the current directory.
  abbrev pub AreElsewhere : List (List ℕ) → Type 0
  AreElsewhere [] = Unit
  AreElsewhere (name ∷ names) = (sys.lstat name ≡ none) × AreElsewhere names
