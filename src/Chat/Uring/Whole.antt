-- ===== src/Chat/Uring/Whole.antt =====
-- hw4/server_io_uring.c: what `main` does, and how it ends.
use file_system_homework.Base.{
  ℕ, ◌≡◌, refl, ap, Bool, true, false, not, ◌&&◌, List, [], ◌∷◌, Option, some, none, map,
  if◌then◌else◌,
}
use file_system_homework.Chat.Setup.{Exit, ends_with, behind_sends, listening}
use file_system_homework.Chat.Clients.{empty_room}
use file_system_homework.Chat.Clients.View.{view, heard_from}
use file_system_homework.Chat.Spec.{SpecRun, done}
use file_system_homework.Chat.Uring.{Completion, Server, start, loop, handle, add_accept_request}
use file_system_homework.Chat.Uring.Program.{UringCalls, idle, wait_loop, main}
use file_system_homework.Chat.Uring.Served.{start-IsServed, input}
use file_system_homework.Chat.Uring.Runs.{Happen, loop-SpecRun}

-- The completions before the first `io_uring_wait_cqe` that fails, and whether one fails.
abbrev pub happened : List (Option Completion) → List Completion
happened [] = []
happened (none ∷ rounds) = []
happened (some c ∷ rounds) = c ∷ happened rounds

abbrev pub all_wait : List (Option Completion) → Bool
all_wait [] = true
all_wait (none ∷ rounds) = false
all_wait (some c ∷ rounds) = all_wait rounds

abbrev pub is_ready : UringCalls → Bool
is_ready c = c.listener.socket && (c.listener.bind && (c.listener.listen && c.ring))

wait_loop-loop :
    (rounds : List (Option Completion)) (s : Server)
    → wait_loop rounds s ≡ record {
      code = if all_wait rounds then none else some 0;
      own_fds = if all_wait rounds then 2 else 0;
      server = (loop (happened rounds) s).0;
      sends = (loop (happened rounds) s).1;
    }
unfolding wait_loop loop
wait_loop-loop [] s = refl
wait_loop-loop (none ∷ rounds) s = refl
wait_loop-loop (some c ∷ rounds) s =
    ap (behind_sends (handle c s).1) (wait_loop-loop rounds (handle c s).0)

abbrev calls_of : (socket bind listen ring : Bool) → UringCalls
calls_of socket bind listen ring = record {
  listener = record { socket = socket; bind = bind; listen = listen };
  ring = ring;
}

-- What a run of `main` is to do, from the completions that it takes.
abbrev pub Serves : List Completion → Exit Server → Type 0
Serves completions r =
    SpecRun (view idle.room) (map input completions) (view r.server.room) (heard_from r.sends)

ends_with-Serves : (own_fds : ℕ) → Serves [] (ends_with (some 1) own_fds idle)
ends_with-Serves own_fds = done ((λ fd. refl), refl, refl) (λ fd. refl)

main_by :
    (socket bind listen ring : Bool) (rounds : List (Option Completion))
    → Happen (happened rounds) start
    → let c = calls_of socket bind listen ring in
      Serves (if is_ready c then happened rounds else []) (main c rounds)
      × ((main c rounds).code
          ≡ (if not (is_ready c) then some 1 else if all_wait rounds then none else some 0))
      × (is_ready c ≡ true → (main c rounds).own_fds ≡ (if all_wait rounds then 2 else 0))
unfolding main listening start empty_room add_accept_request
main_by false bind listen ring rounds h = (ends_with-Serves 0, refl, λ e. absurd cc)
main_by true false listen ring rounds h = (ends_with-Serves 1, refl, λ e. absurd cc)
main_by true true false ring rounds h = (ends_with-Serves 1, refl, λ e. absurd cc)
main_by true true true false rounds h = (ends_with-Serves 1, refl, λ e. absurd cc)
main_by true true true true rounds h =
    rw (wait_loop-loop rounds start)
      (loop-SpecRun (happened rounds) start start-IsServed h, refl, λ e. refl)

-- For all completions that the ring may give: the io_uring server, from `socket` on, does to the table, and sends to each
-- client in order, what the specification of the room says of the completions before the first `io_uring_wait_cqe` that
-- fails, and of none if a call before the loop fails. If one of these calls fails it ends with code 1; when the loop fails
-- it ends with code 0, and its socket and its ring are closed.
pub main-Serves :
    (c : UringCalls) (rounds : List (Option Completion))
    → Happen (happened rounds) start
    → Serves (if is_ready c then happened rounds else []) (main c rounds)
      × ((main c rounds).code
          ≡ (if not (is_ready c) then some 1 else if all_wait rounds then none else some 0))
      × (is_ready c ≡ true → (main c rounds).own_fds ≡ (if all_wait rounds then 2 else 0))
main-Serves c rounds h = main_by c.listener.socket c.listener.bind c.listener.listen c.ring rounds h
