-- ===== src/Chat/Thread/Heard.antt =====
-- hw4/server_thread.c: what each step of a thread does to the members of the room, and what is heard.
use file_system_homework.Base.{
  ℕ, zero, suc, ◌≡◌, ◌≤◌, ◌∙◌, refl, ap, arith, Bool, true, false, List, [], ◌∷◌, Option, some,
  none, get_elem?, take, ==_refl, if◌then◌else◌, c_string,
}
use file_system_homework.Chat.Text.{chat_msg, quit_msg, recv_buffer, chat_text, quit_text}
use file_system_homework.Chat.Text.Whole.{chat_msg-recv_buffer, quit_msg_lem}
use file_system_homework.Chat.Spec.{
  connects, breaks, Members, Heard, told, silence, Same, Hears, Spec,
}
use file_system_homework.Chat.Clients.{Room, Send, add_client}
use file_system_homework.Chat.Clients.Adding.{after}
use file_system_homework.Chat.Clients.Counts.{count_fd}
use file_system_homework.Chat.Clients.View.{
  view, heard_from, broadcast_msg-told, view-after, view-without,
}
use file_system_homework.Chat.Thread.{
  leaving, Thread, Server, accept, welcome, look_up, speak, hang_up, leave, is_in_table, total,
  Step, accepts, looks_up, speaks, hangs_up, leaves, closes, Reach,
}
use file_system_homework.Chat.Thread.Served.{IsServed, Reach-IsServed, in_table_le, some_injective}

-- What a step is, with no table: a client comes; a thread speaks, or says that its client is gone, under the number that it found
-- for it; a client is taken off the table; or nothing of this.
pub data Act : Type 0 where
  comes : (fd : ℕ) → Act
  talks : (fd : ℕ) (id : Option ℕ) (bytes : List ℕ) → Act
  says_bye : (fd : ℕ) (id : Option ℕ) (closed : Bool) → Act
  goes : (fd : ℕ) → Act
  keeps_still : Act

pub act : {s s' : Server} {sends : List Send} → Step s s' sends → Act
act (accepts fd addr z) = comes fd
act (looks_up i t e p) = keeps_still
act (speaks i t id bytes e p) = talks t.fd id bytes
act (hangs_up i t id closed e p) = says_bye t.fd id closed
act (leaves i t e p) = goes t.fd
act (closes i t e p) = keeps_still

-- A newcomer joins as the specification of the room says; a text reaches all members but the one that it is about, once; and who
-- goes is a member no more.
abbrev pub Obeys : Act → Members → Members → Heard → Type 0
Obeys (comes fd) m m' h = Spec (connects fd) m m' h
Obeys (talks fd id bytes) m m' h =
    Same m' m × Hears h (told fd (chat_text id (c_string (take 1023 bytes))) m)
Obeys (says_bye fd id closed) m m' h =
    Same m' m × Hears h (if closed then told fd (quit_text id) m else silence)
Obeys (goes fd) m m' h = Spec (breaks fd) m m' h
Obeys keeps_still m m' h = Same m' m × Hears h silence

total-get :
    (f : Thread → ℕ) (ts : List Thread) (i : ℕ) (t : Thread)
    → get_elem? ts i ≡ some t
    → f t ≤ total f ts
unfolding total
total-get f [] i t e = absurd cc
total-get f (x ∷ ts) zero t e = let same : x ≡ t = some_injective e in omega (arith, ap f same)
total-get f (x ∷ ts) (suc i) t e = omega (arith, total-get f ts i t e)

welcome-room : (fd : ℕ) (s : Server) (o : Option Room) → (welcome fd s o).room ≡ after s.room o
welcome-room fd s none = refl
welcome-room fd s (some room) = refl

-- The client of a thread that is about to leave is in the table.
leaving-count_fd :
    (i : ℕ) (t : Thread) (s : Server)
    → IsServed s
    → get_elem? s.threads i ≡ some t
    → t.phase ≡ leaving
    → count_fd t.fd s.room.clients ≡ 1
leaving-count_fd i t s (room, table, distinct) e p =
    let in_table : is_in_table t.fd t ≡ 1 = ground (arith, p, ==_refl t.fd) in
    omega (
      arith,
      in_table,
      total-get (is_in_table t.fd) s.threads i t e,
      table t.fd,
      in_table_le t.fd s.threads,
      distinct t.fd,
    )

Step-Obeys :
    {s s' : Server} {sends : List Send} (step : Step s s' sends)
    → IsServed s
    → Obeys (act step) (view s.room) (view s'.room) (heard_from sends)
unfolding act accept look_up hang_up leave speak
Step-Obeys {s} (accepts fd addr z) (room, table, distinct) =
    rw (welcome-room fd s (add_client fd addr s.room))
      (view-after fd addr s.room room (omega (arith, table fd, in_table_le fd s.threads, z)))
Step-Obeys {s} (looks_up i t e p) good = (((λ fd. refl), refl, refl), λ fd. refl)
Step-Obeys {s} (speaks i t id bytes e p) (room, table, distinct) = (
  ((λ fd. refl), refl, refl),
  λ fd.
      broadcast_msg-told (chat_msg id (recv_buffer bytes)) t.fd s.room room fd
      ∙ ap (λ x. told t.fd x (view s.room) fd) (chat_msg-recv_buffer id bytes),
)
Step-Obeys {s} (hangs_up i t id true e p) (room, table, distinct) = (
  ((λ fd. refl), refl, refl),
  λ fd.
      broadcast_msg-told (quit_msg id) t.fd s.room room fd
      ∙ ap (λ x. told t.fd x (view s.room) fd) (quit_msg_lem id),
)
Step-Obeys {s} (hangs_up i t id false e p) good = (((λ fd. refl), refl, refl), λ fd. refl)
Step-Obeys {s} (leaves i t e p) good =
    (view-without t.fd s.room good.0 (leaving-count_fd i t s good e p), λ fd. refl)
Step-Obeys {s} (closes i t e p) good = (((λ fd. refl), refl, refl), λ fd. refl)

-- In every state that the interleavings lead to, each step of a thread does to the members of the room, and sends to them, what
-- its act says: whoever comes joins under the next number, or is turned away if a hundred are there; a text is whole, and
-- reaches all members but the one that it is about, once; and who goes is a member no more.
pub Reach-Obeys :
    {s s' : Server} {sends : List Send} (step : Step s s' sends)
    → Reach s
    → Obeys (act step) (view s.room) (view s'.room) (heard_from sends)
Reach-Obeys step r = Step-Obeys step (Reach-IsServed r)
