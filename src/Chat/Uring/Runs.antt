-- ===== src/Chat/Uring/Runs.antt =====
-- hw4/server_io_uring.c: runs over the completions.
use file_system_homework.Base.{refl, List, [], ◌∷◌, map}
use file_system_homework.Chat.Spec.{SpecRun, done, next}
use file_system_homework.Chat.Clients.View.{view, heard_from, heard_from-append}
use file_system_homework.Chat.Uring.{Completion, Server, handle, loop}
use file_system_homework.Chat.Uring.Served.{IsServed, Happens, handle-IsServed, handle-Spec, input}

-- Each completion happens where the completions before it lead.
abbrev pub Happen : List Completion → Server → Type 0
Happen [] s = Unit
Happen (e ∷ es) s = Happens e s × Happen es (handle e s).0

-- From a well-formed server, and whatever completions the ring gives (of requests that it holds, and a new descriptor is
-- not open), the clients in the table are those whose descriptors are open, no two share a
-- descriptor or a number, and no number is beyond the count of connections. The ring holds one request to accept, and
-- one to receive for each client in the table and for no other.
pub loop-IsServed :
    (es : List Completion) (s : Server) → IsServed s → Happen es s → IsServed (loop es s).0
unfolding loop
loop-IsServed [] s good h = good
loop-IsServed (e ∷ es) s good (h, hs) =
    loop-IsServed es (handle e s).0 (handle-IsServed e s good h) hs

-- From a well-formed server, and for all completions that the ring may give, a run does to the table, and sends to each
-- client in order, what the specification of the room says.
pub loop-SpecRun :
    (es : List Completion) (s : Server)
    → IsServed s
    → Happen es s
    → SpecRun (view s.room) (map input es) (view (loop es s).0.room) (heard_from (loop es s).1)
unfolding loop
loop-SpecRun [] s good h = done ((λ fd. refl), refl, refl) (λ fd. refl)
loop-SpecRun (e ∷ es) s good (h, hs) =
    next (heard_from (handle e s).1) (heard_from (loop es (handle e s).0).1)
      (handle-Spec e s good h) (loop-SpecRun es (handle e s).0 (handle-IsServed e s good h) hs)
      (λ fd. heard_from-append fd (handle e s).1 (loop es (handle e s).0).1)
