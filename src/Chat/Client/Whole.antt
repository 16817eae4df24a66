-- ===== src/Chat/Client/Whole.antt =====
-- hw4/client.c: runs of `main`.
use file_system_homework.Base.{
  ℕ, zero, suc, ◌≡◌, ◌↔◌, refl, sym, subst, arith, Bool, true, false, ◌&&◌, List, [], Option, some,
  none, if◌then◌else◌,
}
use file_system_homework.Chat.Client.{Sent, send_loop, Calls, Exit, main}

-- Whether the loop is reached.
abbrev pub reaches_loop : Calls → Bool
reaches_loop c =
    (elim c.socket [ none ↦ false | some zero ↦ false | some (suc n) ↦ true ])
    && (c.parses && (c.connects && c.makes_thread))

abbrev calls_of : Option ℕ → (parses connects makes_thread : Bool) → Calls
calls_of socket parses connects makes_thread = record {
  socket = socket;
  parses = parses;
  connects = connects;
  makes_thread = makes_thread;
}

-- What the loop leaves, if it is reached.
abbrev left_by : Sent → Exit
left_by s =
    if s.ended
    then record { code = some 0; stream = s.stream; socket_open = false }
    else record { code = none; stream = s.stream; socket_open = true }

main_by :
    (socket : Option ℕ) (parses connects makes_thread : Bool) (rs : List (Option ℕ))
    (stdin : List ℕ)
    → let c = calls_of socket parses connects makes_thread in
      main c rs stdin ≡ (
        if reaches_loop c then left_by (send_loop rs stdin []) else record {
          code = some 1;
          stream = [];
          socket_open = elim socket [ none ↦ false | some n ↦ true ];
        })
unfolding main
main_by none parses connects makes_thread rs stdin = ground arith
main_by (some zero) parses connects makes_thread rs stdin = refl
main_by (some (suc n)) false connects makes_thread rs stdin = refl
main_by (some (suc n)) true false makes_thread rs stdin = refl
main_by (some (suc n)) true true false rs stdin = refl
main_by (some (suc n)) true true true rs stdin = refl

-- What ends with code 1.
abbrev FailsAs : Bool → Bool → Exit → Type 0
FailsAs reaches socket_open r =
    ((r.code ≡ some 1) ↔ (reaches ≡ false))
    × (r.code ≡ some 1 → (r.stream ≡ []) × (r.socket_open ≡ socket_open))

fails_as :
    (reaches socket_open ended : Bool) (stream : List ℕ)
    → FailsAs reaches socket_open (
        if reaches
        then left_by (record { stream = stream; ended = ended })
        else record { code = some 1; stream = []; socket_open = socket_open })
fails_as true socket_open true stream = ((λ e. absurd cc, λ e. absurd cc), λ e. absurd cc)
fails_as true socket_open false stream = ((λ e. absurd cc, λ e. absurd cc), λ e. absurd cc)
fails_as false socket_open ended stream = ((λ e. refl, λ e. refl), λ e. (refl, refl))

-- If a call before the loop fails, `main` ends with code 1, has sent nothing, and leaves the socket open that it got; this is
-- the only way to end with code 1.
pub main_fails :
    (c : Calls) (rs : List (Option ℕ)) (stdin : List ℕ)
    → let r = main c rs stdin in
      ((r.code ≡ some 1) ↔ (reaches_loop c ≡ false))
      × (r.code ≡ some 1
          → (r.stream ≡ []) × (r.socket_open ≡ elim c.socket [ none ↦ false | some n ↦ true ]))
main_fails c rs stdin =
    subst (FailsAs (reaches_loop c) (elim c.socket [ none ↦ false | some n ↦ true ]))
      (sym (main_by c.socket c.parses c.connects c.makes_thread rs stdin))
      (fails_as (reaches_loop c) (elim c.socket [ none ↦ false | some n ↦ true ])
        (send_loop rs stdin []).ended (send_loop rs stdin []).stream)
