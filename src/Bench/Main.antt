-- ===== src/Bench/Main.antt =====
-- hw1: `main` of the three programs, from one workload to the next.
use file_system_homework.Base.{
  ℕ, ◌≡◌, inl, inr, refl, ap, Bool, true, ◌&&◌, List, [], ◌∷◌, map, if◌then◌else◌, Bool-cases,
  &&-true,
}
use file_system_homework.Bench.World.{Sizes, World, Calls, Workload}
use file_system_homework.Bench.Effects.{HasFile, Effect, Acts}
use file_system_homework.Bench.Timing.{elapsed, Setting, measure}

-- A workload with the effect that it has when its calls succeed.
pub record Job : Type 0 where
  pub workload : Workload
  pub setting : Setting
  pub effect : Effect

abbrev pub jobs : List Job → List (Workload × Setting)
jobs [] = []
jobs (s ∷ ss) = (s.workload, s.setting) ∷ jobs ss

abbrev pub AllAct : Sizes → (Calls → Bool) → List Job → Type 0
AllAct z works [] = Unit
AllAct z works (s ∷ ss) = Acts z works s.effect s.workload × AllAct z works ss

-- What is printed: a time for each workload before the first one that fails.
abbrev pub times_of : (Calls → Bool) → List Setting → List ℕ
times_of works [] = []
times_of works (s ∷ ss) = if works s.calls then elapsed s.start s.end ∷ times_of works ss else []

abbrev pub all_work : (Calls → Bool) → List Setting → Bool
all_work works [] = true
all_work works (s ∷ ss) = works s.calls && all_work works ss

abbrev pub effects_of : List Job → Effect
effects_of [] w = w
effects_of (s ∷ ss) w = effects_of ss (s.effect w)

abbrev pub settings_of : List Job → List Setting
settings_of ss = map (λ s. s.setting) ss

module _ (z : Sizes) (works : Calls → Bool) where
  -- The exit code and the lines that are printed.
  pub measure-times_of :
      (ss : List Job) (w : World)
      → AllAct z works ss
      → HasFile z w
      → let r = measure (jobs ss) w in
        (r.printed ≡ times_of works (settings_of ss))
        × (r.code ≡ (if all_work works (settings_of ss) then 0 else 1))
  unfolding measure
  measure-times_of [] w acts file = (refl, refl)
  measure-times_of (s ∷ ss) w (act, acts) file = elim (Bool-cases (works s.setting.calls)) [
    | inl e ↦
        let (r, file') = (act s.setting.calls w file).0 e in
        let rest = measure-times_of ss (s.effect w) acts file' in
        rw (measure, r, e) (ap (◌∷◌ (elapsed s.setting.start s.setting.end)) rest.0, rest.1)
    | inr e ↦
        let (w', r, same) = (act s.setting.calls w file).1 e in rw (measure, r, e) (refl, refl)
  ]

  -- The world at the end, if all calls succeed.
  pub measure-effects_of :
      (ss : List Job) (w : World)
      → AllAct z works ss
      → HasFile z w
      → all_work works (settings_of ss) ≡ true
      → (measure (jobs ss) w).world ≡ effects_of ss w
  unfolding measure
  measure-effects_of [] w acts file all = refl
  measure-effects_of (s ∷ ss) w (act, acts) file all =
      let both = &&-true (works s.setting.calls) (all_work works (settings_of ss)) all in
      let (r, file') = (act s.setting.calls w file).0 both.0 in
      rw (measure, r) (measure-effects_of ss (s.effect w) acts file' both.1)
