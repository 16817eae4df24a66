-- ===== src/Chat/Spec.antt =====
-- What a chat room promises, with no table: who is a member under which number, and who hears what.
use file_system_homework.Base.{
  ℕ, suc, ◌-◌, ◌≡◌, ◌<◌, ◌⊎◌, List, [], ◌∷◌, ◌++◌, Option, some, none, take, ◌==◌, if◌then◌else◌,
  c_string,
}
use file_system_homework.Chat.Text.{chat_text, quit_text}

pub data Input : Type 0 where
  connects : (fd : ℕ) → Input
  says : (fd : ℕ) (bytes : List ℕ) → Input
  quits : (fd : ℕ) → Input
  breaks : (fd : ℕ) → Input
  nothing : Input

-- The number of the member behind a descriptor, the last number given, and how many members there are.
pub record Members : Type 0 where
  pub number : ℕ → Option ℕ
  pub last : ℕ
  pub size : ℕ

-- What each descriptor hears, one text after the other.
abbrev pub Heard : Type 0
Heard = ℕ → List (List ℕ)

abbrev pub join : ℕ → Members → Members
join fd m = record {
  number = λ fd'. if fd == fd' then some (suc m.last) else m.number fd';
  last = suc m.last;
  size = suc m.size;
}

abbrev pub leave : ℕ → Members → Members
leave fd m = record {
  number = λ fd'. if fd' == fd then none else m.number fd';
  last = m.last;
  size = m.size - 1;
}

abbrev pub once_for : Option ℕ → List ℕ → List (List ℕ)
once_for none text = []
once_for (some n) text = text ∷ []

-- All members but the speaker hear the text, once.
abbrev pub told : ℕ → List ℕ → Members → Heard
told fd text m fd' = if fd' == fd then [] else once_for (m.number fd') text

abbrev pub Same : Members → Members → Type 0
Same m m' = ((fd : ℕ) → m.number fd ≡ m'.number fd) × (m.last ≡ m'.last) × (m.size ≡ m'.size)

abbrev pub Hears : Heard → Heard → Type 0
Hears h h' = (fd : ℕ) → h fd ≡ h' fd

abbrev pub silence : Heard
silence fd = []

-- What an input does to the members, and what is heard. Up to a hundred may join.
abbrev pub Spec : Input → Members → Members → Heard → Type 0
Spec (connects fd) m m' h =
    (((m.size ≡ 100) × Same m' m) ⊎ ((m.size < 100) × Same m' (join fd m))) × Hears h silence
Spec (says fd bytes) m m' h =
    (n : ℕ) × (m.number fd ≡ some n)
    × Same m' m
    × Hears h (told fd (chat_text (some n) (c_string (take 1023 bytes))) m)
Spec (quits fd) m m' h =
    (n : ℕ) × (m.number fd ≡ some n)
    × Same m' (leave fd m)
    × Hears h (told fd (quit_text (some n)) m)
Spec (breaks fd) m m' h = Same m' (leave fd m) × Hears h silence
Spec nothing m m' h = Same m' m × Hears h silence

-- A run of the room: what is heard is heard in the order of the inputs.
pub data SpecRun : Members → List Input → Members → Heard → Type 0 where
  done : {m m' : Members} {h : Heard} → Same m' m → Hears h silence → SpecRun m [] m' h
  next :
      {i : Input} {is : List Input} {m m₁ m' : Members} (h₁ h₂ : Heard) {h : Heard}
      → Spec i m m₁ h₁
      → SpecRun m₁ is m' h₂
      → Hears h (λ fd. h₁ fd ++ h₂ fd)
      → SpecRun m (i ∷ is) m' h
