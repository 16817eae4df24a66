-- ===== src/Chat/Clients/View.antt =====
-- The table of clients seen as the members of a room.
use file_system_homework.Base.{
  ℕ, suc, ◌+◌, ◌≡◌, ◌≤◌, inl, inr, ◌∙◌, refl, ap, arith, Bool, true, false, ◌&&◌, List, [], ◌∷◌,
  ◌++◌, some, replicate, ◌==◌, if◌then◌else◌, c_string, Bool-cases,
}
use file_system_homework.Chat.Spec.{
  Members, Heard, connects, Spec, Same, Hears, leave, told, once_for, silence,
}
use file_system_homework.Chat.Clients.{
  Client, Room, Send, send_all, recipients, broadcast_msg, add_client, find_id, deactivate,
}
use file_system_homework.Chat.Clients.Counts.{count, count-recipients, count_fd, IsRoom}
use file_system_homework.Chat.Clients.Adding.{count_active, add_client-Joins, after}
use file_system_homework.Chat.Clients.Leaving.{without, deactivate_lem}

abbrev pub view : Room → Members
view s = record {
  number = λ fd. find_id fd s.clients;
  last = s.total_connections;
  size = count_active s.clients;
}

-- What the calls of `send` bring to a descriptor.
abbrev pub heard_from : List Send → Heard
heard_from [] fd = []
heard_from (x ∷ xs) fd = let rest = heard_from xs fd in if x.fd == fd then x.text ∷ rest else rest

heard_from-send_all :
    (text : List ℕ) (fd : ℕ) (fds : List ℕ)
    → heard_from (send_all text fds) fd ≡ replicate (count fd fds) text
heard_from-send_all text fd [] = refl
heard_from-send_all text fd (x ∷ fds) = elim (Bool-cases (x == fd)) [
  | inl e ↦
      let one : 1 + count fd fds ≡ suc (count fd fds) = omega arith in
      rw (e, one) (ap (◌∷◌ text) (heard_from-send_all text fd fds))
  | inr e ↦
      let same : 0 + count fd fds ≡ count fd fds = omega arith in
      rw (e, same) (heard_from-send_all text fd fds)
]

replicate-if :
    (b : Bool) (k : ℕ) (text : List ℕ)
    → replicate (if b then 0 else k) text ≡ (if b then [] else replicate k text)
replicate-if true k text = refl
replicate-if false k text = refl

heard_from-recipients :
    (text : List ℕ) (sender fd : ℕ) (cs : List Client)
    → heard_from (send_all text (recipients sender cs)) fd
      ≡ (if fd == sender then [] else replicate (count_fd fd cs) text)
heard_from-recipients text sender fd cs =
    heard_from-send_all text fd (recipients sender cs)
    ∙ ap (λ k. replicate k text) (count-recipients sender fd cs)
    ∙ replicate-if (fd == sender) (count_fd fd cs) text

once_for-find_id :
    (text : List ℕ) (fd : ℕ) (cs : List Client)
    → count_fd fd cs ≤ 1
    → replicate (count_fd fd cs) text ≡ once_for (find_id fd cs) text
unfolding count_fd find_id
once_for-find_id text fd [] h = refl
once_for-find_id text fd (c ∷ cs) h = ground (arith, once_for-find_id text fd cs)

-- `broadcast_msg` reaches every member but the sender, once.
pub broadcast_msg-told :
    (msg : List ℕ) (fd : ℕ) (s : Room)
    → IsRoom s
    → Hears (heard_from (broadcast_msg msg fd s.clients)) (told fd (c_string msg) (view s))
unfolding broadcast_msg
broadcast_msg-told msg fd s room fd' =
    heard_from-recipients (c_string msg) fd fd' s.clients
    ∙ ap (λ t. if fd' == fd then [] else t)
        (once_for-find_id (c_string msg) fd' s.clients (room.1 fd'))

-- A descriptor in the table has a number.
pub find_id-some :
    (fd : ℕ) (cs : List Client) → count_fd fd cs ≡ 1 → (n : ℕ) × (find_id fd cs ≡ some n)
unfolding count_fd find_id
find_id-some fd [] h = absurd (omega (arith, h))
find_id-some fd (c ∷ cs) h = elim (Bool-cases (c.is_active && (c.fd == fd))) [
  | inl e ↦ (c.id, rw e refl)
  | inr e ↦ let rest : count_fd fd cs ≡ 1 = ground (arith, e, h) in rw e (find_id-some fd cs rest)
]

count_active-deactivate :
    (fd : ℕ) (cs : List Client)
    → count_fd fd cs ≤ 1
    → count_active (deactivate fd cs) + count_fd fd cs ≡ count_active cs
unfolding count_active deactivate count_fd
count_active-deactivate fd [] h = refl
count_active-deactivate fd (c ∷ cs) h = ground (arith, count_active-deactivate fd cs)

pub view-without :
    (fd : ℕ) (s : Room)
    → IsRoom s
    → count_fd fd s.clients ≡ 1
    → Same (view (without fd s)) (leave fd (view s))
view-without fd s room h = (
  (λ fd'. ((deactivate_lem fd s room).1 fd').0),
  refl,
  omega (arith, count_active-deactivate fd s.clients (omega (arith, h)), h),
)

-- A client that comes.
pub view-after :
    (fd addr : ℕ) (s : Room)
    → IsRoom s
    → count_fd fd s.clients ≡ 0
    → Spec (connects fd) (view s) (view (after s (add_client fd addr s))) silence
view-after fd addr s room z = elim (add_client-Joins fd addr s room z) [
  | inl (e, full) ↦ (inl (full, rw e ((λ fd'. refl), refl, refl)), λ fd'. refl)
  | inr (s', e, lt, more, good, last, find, fds) ↦ (inr (lt, rw e (find, last, more)), λ fd'. refl)
]

pub heard_from-append :
    (fd : ℕ) (xs ys : List Send) → heard_from (xs ++ ys) fd ≡ heard_from xs fd ++ heard_from ys fd
heard_from-append fd [] ys = refl
heard_from-append fd (x ∷ xs) ys = ground (arith, heard_from-append fd xs ys)
