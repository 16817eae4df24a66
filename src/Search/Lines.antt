-- ===== src/Search/Lines.antt =====
-- hw2/hw2_2: the way to an entry, and the lines that are printed for it.
use file_system_homework.Base.{
  ℕ, ◌≡◌, ◌⊎◌, inl, inr, refl, sym, subst, arith, true, false, List, [], ◌∷◌, ◌++◌, same_text,
  same_text→eq, same_text_refl, if◌then◌else◌, Bool-cases,
}
use file_system_homework.Search.{
  Entries, plain, folder, is_skipped, starts_with_dot, full_path, hit,
}

-- The names on the way to an entry, none of which starts with a dot.
pub data Leads : Entries → List (List ℕ) → Type 0 where
  at_plain :
      {name : List ℕ} {rest : Entries}
      → starts_with_dot name ≡ false
      → Leads (plain name rest) (name ∷ [])
  at_folder :
      {name : List ℕ} {inside rest : Entries}
      → starts_with_dot name ≡ false
      → Leads (folder name inside rest) (name ∷ [])
  into :
      {name : List ℕ} {inside rest : Entries} {names : List (List ℕ)}
      → starts_with_dot name ≡ false
      → Leads inside names
      → Leads (folder name inside rest) (name ∷ names)
  past_plain :
      {name : List ℕ} {rest : Entries} {names : List (List ℕ)}
      → Leads rest names
      → Leads (plain name rest) names
  past_folder :
      {name : List ℕ} {inside rest : Entries} {names : List (List ℕ)}
      → Leads rest names
      → Leads (folder name inside rest) names

-- The last name, and the path that the names make.
abbrev pub EndsWith : List (List ℕ) → List ℕ → Type 0
EndsWith [] target = ⊥
EndsWith (name ∷ []) target = name ≡ target
EndsWith (name ∷ n ∷ names) target = EndsWith (n ∷ names) target

abbrev pub path_of : List ℕ → List (List ℕ) → List ℕ
path_of path [] = path
path_of path (name ∷ names) = path_of (full_path path name) names

abbrev pub Among : List ℕ → List (List ℕ) → Type 0
Among x [] = ⊥
Among x (y ∷ ys) = (x ≡ y) ⊎ Among x ys

abbrev pub Found : List ℕ → List ℕ → Entries → List ℕ → Type 0
Found path target es line =
    (names : List (List ℕ)) × Leads es names × EndsWith names target × (line ≡ path_of path names)

pub is_skipped_lem : (name : List ℕ) → is_skipped name ≡ starts_with_dot name
unfolding is_skipped
is_skipped_lem [] = refl
is_skipped_lem (c ∷ name) = ground arith

pub Among-split :
    (x : List ℕ) (xs ys : List (List ℕ)) → Among x (xs ++ ys) → Among x xs ⊎ Among x ys
Among-split x [] ys a = inr a
Among-split x (z ∷ xs) ys (inl e) = inl (inl e)
Among-split x (z ∷ xs) ys (inr a) = elim (Among-split x xs ys a) [
  | inl b ↦ inl (inr b)
  | inr b ↦ inr b
]

pub Among-left : (x : List ℕ) (xs ys : List (List ℕ)) → Among x xs → Among x (xs ++ ys)
Among-left x [] ys a = absurd a
Among-left x (z ∷ xs) ys (inl e) = inl e
Among-left x (z ∷ xs) ys (inr a) = inr (Among-left x xs ys a)

pub Among-right : (x : List ℕ) (xs ys : List (List ℕ)) → Among x ys → Among x (xs ++ ys)
Among-right x [] ys a = a
Among-right x (z ∷ xs) ys a = inr (Among-right x xs ys a)

pub hit_only :
    (name target path line : List ℕ)
    → Among line (hit name target path)
    → (name ≡ target) × (line ≡ path)
hit_only name target path line a = elim (Bool-cases (same_text name target)) [
  | inl e ↦ (
    same_text→eq name target e,
    first (subst (λ b. Among line (if b then path ∷ [] else [])) e a),
  )
  | inr e ↦ absurd (subst (λ b. Among line (if b then path ∷ [] else [])) e a)
]
  where
    first : (line ≡ path) ⊎ ⊥ → line ≡ path
    first (inl e) = e
    first (inr n) = absurd n

pub hit_same : (name target path : List ℕ) → name ≡ target → Among path (hit name target path)
hit_same name target path e =
    subst (λ b. Among path (if b then path ∷ [] else []))
      (sym (subst (λ t. same_text name t ≡ true) e (same_text_refl name))) (inl refl)
