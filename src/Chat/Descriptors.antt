-- ===== src/Chat/Descriptors.antt =====
-- Sets of descriptors as lists: what is open, what epoll watches, what the ring waits for.
use file_system_homework.Base.{ℕ, ◌≡◌, arith, List, [], ◌∷◌, subst, ℕ_discrete, ◌==◌, if◌then◌else◌}
use file_system_homework.Chat.Clients.Counts.{count}

-- `close`, or `EPOLL_CTL_DEL`: all of one descriptor.
unfoldable pub remove : ℕ → List ℕ → List ℕ
remove fd [] = []
remove fd (x ∷ xs) = let rest = remove fd xs in if x == fd then rest else x ∷ rest

pub count-remove :
    (fd fd' : ℕ) (xs : List ℕ) → count fd' (remove fd xs) ≡ (if fd' == fd then 0 else count fd' xs)
unfolding remove
count-remove fd fd' [] = ground arith
count-remove fd fd' (x ∷ xs) = ground (arith, count-remove fd fd' xs)

-- A descriptor that was not in the set comes and goes.
pub count-remove_new :
    (fd fd' : ℕ) (xs : List ℕ) → count fd xs ≡ 0 → count fd' (remove fd (fd ∷ xs)) ≡ count fd' xs
count-remove_new fd fd' xs z = elim (ℕ_discrete fd fd') [
  | yes p ↦
      let z' : count fd' xs ≡ 0 = subst (λ x. count x xs ≡ 0) p z in
      ground (arith, count-remove fd fd' (fd ∷ xs), z')
  | no p ↦ ground (arith, count-remove fd fd' (fd ∷ xs), p)
]

-- A descriptor that was in the set goes and comes.
pub count-remove_back :
    (fd fd' : ℕ) (xs : List ℕ) → count fd xs ≡ 1 → count fd' (fd ∷ remove fd xs) ≡ count fd' xs
count-remove_back fd fd' xs z = elim (ℕ_discrete fd fd') [
  | yes p ↦
      let z' : count fd' xs ≡ 1 = subst (λ x. count x xs ≡ 1) p z in
      ground (arith, count-remove fd fd' xs, z')
  | no p ↦ ground (arith, count-remove fd fd' xs, p)
]
