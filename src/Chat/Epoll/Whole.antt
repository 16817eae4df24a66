-- ===== src/Chat/Epoll/Whole.antt =====
-- hw4/server_epoll.c: what `main` does, and how it ends.
use file_system_homework.Base.{
  append_assoc, ℕ, ◌≡◌, refl, sym, ap, Bool, true, false, ◌&&◌, List, [], ◌∷◌, ◌++◌, Option, some,
  none, map, if◌then◌else◌,
}
use file_system_homework.Chat.Setup.{Exit, ends_with, behind_sends, listening}
use file_system_homework.Chat.Clients.View.{view, heard_from}
use file_system_homework.Chat.Spec.{SpecRun, done}
use file_system_homework.Chat.Epoll.{Event, Server, start, run, handle}
use file_system_homework.Chat.Epoll.Program.{EpollCalls, wait_loop, main}
use file_system_homework.Chat.Epoll.Served.{start-IsServed, input}
use file_system_homework.Chat.Epoll.Reach.{Happen, run-SpecRun}

-- The events before the first `epoll_wait` that fails, and whether one fails.
abbrev pub happened : List (Option (List Event)) → List Event
happened [] = []
happened (none ∷ rounds) = []
happened (some events ∷ rounds) = events ++ happened rounds

abbrev pub all_wait : List (Option (List Event)) → Bool
all_wait [] = true
all_wait (none ∷ rounds) = false
all_wait (some events ∷ rounds) = all_wait rounds

abbrev pub is_ready : EpollCalls → Bool
is_ready c = c.listener.socket && (c.listener.bind && (c.listener.listen && (c.creates && c.adds)))

run-append :
    (es ds : List Event) (s : Server)
    → run (es ++ ds) s ≡ ((run ds (run es s).0).0, (run es s).1 ++ (run ds (run es s).0).1)
unfolding run
run-append [] ds s = refl
run-append (e ∷ es) ds s = rw (run-append es ds (handle e s).0) (
    ap (λ x. ((run ds (run es (handle e s).0).0).0, x))
      (sym (
        append_assoc (handle e s).1 (run es (handle e s).0).1
          (run ds (run es (handle e s).0).0).1)))

-- The loop is a run over all events.
wait_loop-run :
    (rounds : List (Option (List Event))) (s : Server)
    → wait_loop rounds s ≡ record {
      code = if all_wait rounds then none else some 1;
      own_fds = 2;
      server = (run (happened rounds) s).0;
      sends = (run (happened rounds) s).1;
    }
unfolding wait_loop run
wait_loop-run [] s = refl
wait_loop-run (none ∷ rounds) s = refl
wait_loop-run (some events ∷ rounds) s =
    rw (run-append events (happened rounds) s)
      (ap (behind_sends (run events s).1) (wait_loop-run rounds (run events s).0))

abbrev calls_of : (socket bind listen creates adds : Bool) → EpollCalls
calls_of socket bind listen creates adds = record {
  listener = record { socket = socket; bind = bind; listen = listen };
  creates = creates;
  adds = adds;
}

-- What a run of `main` is to do, from the events that it takes.
abbrev pub Serves : List Event → Exit Server → Type 0
Serves events r =
    SpecRun (view start.room) (map input events) (view r.server.room) (heard_from r.sends)

ends_with-Serves : (own_fds : ℕ) → Serves [] (ends_with (some 1) own_fds start)
ends_with-Serves own_fds = done ((λ fd. refl), refl, refl) (λ fd. refl)

main_by :
    (socket bind listen creates adds : Bool) (rounds : List (Option (List Event)))
    → Happen (happened rounds) start
    → let c = calls_of socket bind listen creates adds in
      Serves (if is_ready c then happened rounds else []) (main c rounds)
      × ((main c rounds).code ≡ (if is_ready c && all_wait rounds then none else some 1))
unfolding main listening
main_by false bind listen creates adds rounds h = (ends_with-Serves 0, refl)
main_by true false listen creates adds rounds h = (ends_with-Serves 1, refl)
main_by true true false creates adds rounds h = (ends_with-Serves 1, refl)
main_by true true true false adds rounds h = (ends_with-Serves 1, refl)
main_by true true true true false rounds h = (ends_with-Serves 2, refl)
main_by true true true true true rounds h =
    rw (wait_loop-run rounds start) (run-SpecRun (happened rounds) start start-IsServed h, refl)

pub main-SpecRun :
    (c : EpollCalls) (rounds : List (Option (List Event)))
    → Happen (happened rounds) start
    → Serves (if is_ready c then happened rounds else []) (main c rounds)
      × ((main c rounds).code ≡ (if is_ready c && all_wait rounds then none else some 1))
main-SpecRun c rounds h =
    main_by c.listener.socket c.listener.bind c.listener.listen c.creates c.adds rounds h
