-- ===== src/Chat/Agreement.antt =====
-- hw4: server_epoll.c and server_io_uring.c, compared by what they do on the same inputs.
mod Tests
use file_system_homework.Base.{
  ℕ, zero, suc, ◌+◌, ◌-◌, ◌≡◌, ◌<◌, ◌∙◌, inl, inr, refl, sym, ap, ap₂, subst, arith, true, List, [],
  ◌∷◌, ◌++◌, Option, some, none, map, ◌==◌, if◌then◌else◌, c_string, take,
}
use file_system_homework.Chat.Text.{chat_text, quit_text}
use file_system_homework.Chat.Spec.{
  Input, connects, says, quits, breaks, nothing, Members, Heard, join, leave, told, once_for,
  silence, Same, Hears, Spec, SpecRun, done, next,
}
use file_system_homework.Chat.Setup.{Exit}
use file_system_homework.Chat.Clients.View.{view, heard_from}
use file_system_homework.Chat.Epoll
use file_system_homework.Chat.Epoll.{Event}
use file_system_homework.Chat.Epoll.Program.{EpollCalls}
use file_system_homework.Chat.Uring
use file_system_homework.Chat.Uring.{Completion}
use file_system_homework.Chat.Uring.Program.{UringCalls}

Same-sym : (m m' : Members) → Same m m' → Same m' m
Same-sym m m' (number, last, size) = ((λ fd. sym (number fd)), sym last, sym size)

Same-trans : (m m' m'' : Members) → Same m m' → Same m' m'' → Same m m''
Same-trans m m' m'' (number, last, size) (number', last', size') =
    ((λ fd. number fd ∙ number' fd), last ∙ last', size ∙ size')

join-Same : (fd : ℕ) (m m' : Members) → Same m m' → Same (join fd m) (join fd m')
join-Same fd m m' (number, last, size) = (
  (λ fd'. ap₂ (λ l n. if fd == fd' then some (suc l) else n) last (number fd')),
  ap suc last,
  ap suc size,
)

leave-Same : (fd : ℕ) (m m' : Members) → Same m m' → Same (leave fd m) (leave fd m')
leave-Same fd m m' (number, last, size) =
    ((λ fd'. ap (λ n. if fd' == fd then none else n) (number fd')), last, ap (λ k. k - 1) size)

told-Same :
    (fd : ℕ) (text : List ℕ) (m m' : Members) → Same m m' → Hears (told fd text m) (told fd text m')
told-Same fd text m m' (number, last, size) fd' =
    ap (λ n. if fd' == fd then [] else once_for n text) (number fd')

meet : (a b a' b' : Members) → Same a b → Same a' b' → Same b b' → Same a a'
meet a b a' b' s s' same = Same-trans a b a' s (Same-trans b b' a' same (Same-sym a' b' s'))

hear_same : (h k h' k' : Heard) → Hears h k → Hears h' k' → Hears k k' → Hears h h'
hear_same h k h' k' s s' same fd = s fd ∙ same fd ∙ sym (s' fd)

-- The number of a speaker is the same in both rooms, and so is what the others hear.
told_text :
    (fd : ℕ) (text : Option ℕ → List ℕ) (n n' : ℕ) (m m' : Members)
    → m.number fd ≡ some n
    → m'.number fd ≡ some n'
    → Same m m'
    → Hears (told fd (text (some n)) m) (told fd (text (some n')) m')
told_text fd text n n' m m' e e' same fd' =
    ap (λ o. told fd (text o) m fd') (sym e ∙ same.0 fd ∙ e')
    ∙ told-Same fd (text (some n')) m m' same fd'

Spec-agree :
    (i : Input) (m m' a a' : Members) (h h' : Heard)
    → Same m m'
    → Spec i m a h
    → Spec i m' a' h'
    → Same a a' × Hears h h'
Spec-agree (connects fd) m m' a a' h h' same (inl (full, s), q) (inl (full', s'), q') =
    (meet a m a' m' s s' same, hear_same h silence h' silence q q' (λ fd'. refl))
Spec-agree (connects fd) m m' a a' h h' same (inl (full, s), q) (inr (free', s'), q') =
    absurd (omega (arith, full, free', same.2))
Spec-agree (connects fd) m m' a a' h h' same (inr (free, s), q) (inl (full', s'), q') =
    absurd (omega (arith, free, full', same.2))
Spec-agree (connects fd) m m' a a' h h' same (inr (free, s), q) (inr (free', s'), q') = (
  meet a (join fd m) a' (join fd m') s s' (join-Same fd m m' same),
  hear_same h silence h' silence q q' (λ fd'. refl),
)
Spec-agree (says fd bytes) m m' a a' h h' same (n, e, s, q) (n', e', s', q') =
    let text : Option ℕ → List ℕ = λ o. chat_text o (c_string (take 1023 bytes)) in
    (
      meet a m a' m' s s' same,
      hear_same h (told fd (text (some n)) m) h' (told fd (text (some n')) m') q q'
          (told_text fd text n n' m m' e e' same),
    )
Spec-agree (quits fd) m m' a a' h h' same (n, e, s, q) (n', e', s', q') = (
  meet a (leave fd m) a' (leave fd m') s s' (leave-Same fd m m' same),
  hear_same h (told fd (quit_text (some n)) m) h' (told fd (quit_text (some n')) m') q q'
      (told_text fd quit_text n n' m m' e e' same),
)
Spec-agree (breaks fd) m m' a a' h h' same (s, q) (s', q') = (
  meet a (leave fd m) a' (leave fd m') s s' (leave-Same fd m m' same),
  hear_same h silence h' silence q q' (λ fd'. refl),
)
Spec-agree nothing m m' a a' h h' same (s, q) (s', q') =
    (meet a m a' m' s s' same, hear_same h silence h' silence q q' (λ fd'. refl))

-- The specification leaves no choice.
SpecRun-agree :
    (m m' a a' : Members) (is : List Input) (h h' : Heard)
    → Same m m'
    → SpecRun m is a h
    → SpecRun m' is a' h'
    → Same a a' × Hears h h'
SpecRun-agree m m' a a' [] h h' same (done s q) (done s' q') =
    (meet a m a' m' s s' same, hear_same h silence h' silence q q' (λ fd. refl))
SpecRun-agree m m' a a' (i ∷ is) h h' same (next h₁ h₂ now later q) (next h₁' h₂' now' later' q') =
    let first = Spec-agree i m m' _ _ h₁ h₁' same now now' in
    let rest = SpecRun-agree _ _ a a' is h₂ h₂' first.0 later later' in
    (
      rest.0,
      hear_same h (λ fd. h₁ fd ++ h₂ fd) h' (λ fd. h₁' fd ++ h₂' fd) q q'
          (λ fd. ap₂ ◌++◌ (first.1 fd) (rest.1 fd)),
    )

-- On events and completions that mean the same inputs, and that the kernel may give, once the calls before the loops have
-- succeeded: the epoll server and the io_uring server end with the same clients under the same numbers, have given out as
-- many, and have sent the same texts to each descriptor, in the same order.
pub servers_agree :
    (c : EpollCalls) (d : UringCalls) (events : List (Option (List Event)))
    (completions : List (Option Completion))
    → Epoll.Whole.is_ready c ≡ true
    → Uring.Whole.is_ready d ≡ true
    → Epoll.Reach.Happen (Epoll.Whole.happened events) Epoll.start
    → Uring.Runs.Happen (Uring.Whole.happened completions) Uring.start
    → map Epoll.Served.input (Epoll.Whole.happened events)
      ≡ map Uring.Served.input (Uring.Whole.happened completions)
    → let r = Epoll.Program.main c events in
      let r' = Uring.Program.main d completions in
      Same (view r.server.room) (view r'.server.room)
      × Hears (heard_from r.sends) (heard_from r'.sends)
servers_agree c d events completions ready ready' h h' same =
    SpecRun-agree (view Epoll.start.room) (view Uring.Program.idle.room) (view r.server.room)
      (view r'.server.room) (map Uring.Served.input (Uring.Whole.happened completions))
      (heard_from r.sends) (heard_from r'.sends) ((λ fd. refl), refl, refl)
      (subst (λ is. SpecRun (view Epoll.start.room) is (view r.server.room) (heard_from r.sends))
        same
        (subst (λ b. Epoll.Whole.Serves (if b then Epoll.Whole.happened events else []) r) ready
          (Epoll.Whole.main-SpecRun c events h).0))
      (subst (λ b. Uring.Whole.Serves (if b then Uring.Whole.happened completions else []) r')
        ready' (Uring.Whole.main-Serves d completions h').0)
  where
    r : Exit Epoll.Server
    r = Epoll.Program.main c events

    r' : Exit Uring.Server
    r' = Uring.Program.main d completions
