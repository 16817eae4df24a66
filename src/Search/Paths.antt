-- ===== src/Search/Paths.antt =====
-- hw2/hw2_2: `search` and the paths of the tree.
use file_system_homework.Base.{
  ℕ, ◌≡◌, ◌↔◌, inl, inr, refl, sym, subst, true, false, List, [], ◌∷◌, ◌++◌, Bool-cases,
}
use file_system_homework.Search.{
  Entries, nothing, plain, folder, starts_with_dot, full_path, hit, search,
}
use file_system_homework.Search.Lines.{
  Leads, at_plain, at_folder, into, past_plain, past_folder, EndsWith, path_of, Among, Found,
  is_skipped_lem, Among-split, Among-left, Among-right, hit_only, hit_same,
}

module _ (target : List ℕ) where
  search_nothing : (path : List ℕ) → search path target nothing ≡ []
  unfolding search
  search_nothing path = refl

  search_skip_plain :
      (path name : List ℕ) (rest : Entries)
      → starts_with_dot name ≡ true
      → search path target (plain name rest) ≡ search path target rest
  unfolding search
  search_skip_plain path name rest e = rw (is_skipped_lem name, e) refl

  search_plain :
      (path name : List ℕ) (rest : Entries)
      → starts_with_dot name ≡ false
      → search path target (plain name rest)
        ≡ hit name target (full_path path name) ++ search path target rest
  unfolding search
  search_plain path name rest e = rw (is_skipped_lem name, e) refl

  search_skip_folder :
      (path name : List ℕ) (inside rest : Entries)
      → starts_with_dot name ≡ true
      → search path target (folder name inside rest) ≡ search path target rest
  unfolding search
  search_skip_folder path name inside rest e = rw (is_skipped_lem name, e) refl

  search_folder :
      (path name : List ℕ) (inside rest : Entries)
      → starts_with_dot name ≡ false
      → search path target (folder name inside rest)
        ≡ hit name target (full_path path name)
          ++ (search (full_path path name) target inside ++ search path target rest)
  unfolding search
  search_folder path name inside rest e = rw (is_skipped_lem name, e) refl

  search-Found :
      (es : Entries) (path line : List ℕ)
      → Among line (search path target es)
      → Found path target es line
  search-Found nothing path line a = absurd (subst (Among line) (search_nothing path) a)
  search-Found (plain name rest) path line a = elim (Bool-cases (starts_with_dot name)) [
    | inl e ↦
        past
          (search-Found rest path line (subst (Among line) (search_skip_plain path name rest e) a))
    | inr e ↦
        elim (Among-split line (hit name target (full_path path name)) (search path target rest)
          (subst (Among line) (search_plain path name rest e) a)) [
            | inl h ↦
                let (n, p) = hit_only name target (full_path path name) line h in
                (name ∷ [], at_plain e, n, p)
            | inr m ↦ past (search-Found rest path line m)
          ]
  ]
    where
      past : Found path target rest line → Found path target (plain name rest) line
      past (names, l, w, p) = (names, past_plain l, w, p)
  search-Found (folder name inside rest) path line a = elim (Bool-cases (starts_with_dot name)) [
    | inl e ↦ past (
        search-Found rest path line
          (subst (Among line) (search_skip_folder path name inside rest e) a))
    | inr e ↦
        elim (Among-split line (hit name target (full_path path name))
          (search (full_path path name) target inside ++ search path target rest)
          (subst (Among line) (search_folder path name inside rest e) a)) [
            | inl h ↦
                let (n, p) = hit_only name target (full_path path name) line h in
                (name ∷ [], at_folder e, n, p)
            | inr m ↦
                elim (Among-split line (search (full_path path name) target inside)
                  (search path target rest) m) [
                    | inl b ↦ below e (search-Found inside (full_path path name) line b)
                    | inr b ↦ past (search-Found rest path line b)
                  ]
          ]
  ]
    where
      past : Found path target rest line → Found path target (folder name inside rest) line
      past (names, l, w, p) = (names, past_folder l, w, p)

      below :
          starts_with_dot name ≡ false
          → Found (full_path path name) target inside line
          → Found path target (folder name inside rest) line
      below e ([], l, w, p) = absurd w
      below e (n ∷ names, l, w, p) = (name ∷ n ∷ names, into e l, w, p)

  Found-search :
      (es : Entries) (names : List (List ℕ)) (path : List ℕ)
      → Leads es names
      → EndsWith names target
      → Among (path_of path names) (search path target es)
  Found-search nothing names path l w = elim l [ ]
  Found-search (plain name rest) names path (at_plain e) w =
      subst (Among (full_path path name)) (sym (search_plain path name rest e)) (
        Among-left (full_path path name) (hit name target (full_path path name))
          (search path target rest) (hit_same name target (full_path path name) w))
  Found-search (plain name rest) names path (past_plain l) w =
      elim (Bool-cases (starts_with_dot name)) [
        | inl e ↦
            subst (Among (path_of path names)) (sym (search_skip_plain path name rest e))
              (Found-search rest names path l w)
        | inr e ↦ subst (Among (path_of path names)) (sym (search_plain path name rest e)) (
            Among-right (path_of path names) (hit name target (full_path path name))
              (search path target rest) (Found-search rest names path l w))
      ]
  Found-search (folder name inside rest) names path (at_folder e) w =
      subst (Among (full_path path name)) (sym (search_folder path name inside rest e)) (
        Among-left (full_path path name) (hit name target (full_path path name))
          (search (full_path path name) target inside ++ search path target rest)
          (hit_same name target (full_path path name) w))
  Found-search (folder name inside rest) (m ∷ []) path (into e l) w = absurd (nowhere l)
    where
      nowhere : {es : Entries} → Leads es [] → ⊥
      nowhere (past_plain l) = nowhere l
      nowhere (past_folder l) = nowhere l
  Found-search (folder name inside rest) (m ∷ n ∷ names) path (into e l) w =
      subst (Among (path_of path (name ∷ n ∷ names))) (sym (search_folder path name inside rest e))
        (Among-right (path_of path (name ∷ n ∷ names)) (hit name target (full_path path name))
          (search (full_path path name) target inside ++ search path target rest)
          (Among-left (path_of path (name ∷ n ∷ names)) (search (full_path path name) target inside)
            (search path target rest) (Found-search inside (n ∷ names) (full_path path name) l w)))
  Found-search (folder name inside rest) names path (past_folder l) w =
      elim (Bool-cases (starts_with_dot name)) [
        | inl e ↦
            subst (Among (path_of path names)) (sym (search_skip_folder path name inside rest e))
              (Found-search rest names path l w)
        | inr e ↦ subst (Among (path_of path names)) (sym (search_folder path name inside rest e)) (
            Among-right (path_of path names) (hit name target (full_path path name))
              (search (full_path path name) target inside ++ search path target rest)
              (Among-right (path_of path names) (search (full_path path name) target inside)
                (search path target rest) (Found-search rest names path l w)))
      ]

-- The lines that are printed are the paths of the entries that have the name and can be reached through directories,
-- where no name on the way, the last one included, starts with a dot.
pub search_lem :
    (path target : List ℕ) (es : Entries) (line : List ℕ)
    → Among line (search path target es) ↔ Found path target es line
search_lem path target es line = (
  search-Found target es path line,
  λ f.
      subst (λ p. Among p (search path target es)) (sym f.3)
        (Found-search target es f.0 path f.1 f.2),
)
