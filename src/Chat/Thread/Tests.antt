-- ===== src/Chat/Thread/Tests.antt =====
-- A client that comes, speaks and goes; and one that speaks under the number of another.
use file_system_homework.Base.{ℕ, ◌≡◌, ◌++◌, refl, true, false, List, [], ◌∷◌, some}
use file_system_homework.Chat.Clients.{Client, Room, empty_room, take_slot, add_client, find_id}
use file_system_homework.Chat.Clients.Counts.{count_fd}
use file_system_homework.Chat.Clients.Adding.{count_active}
use file_system_homework.Chat.Thread.{
  starting, serving, Thread, Step, speak, speaks, Server, start, accept, look_up, lookup_id, total,
  accepts, looks_up, Reach, starts, later,
}
use file_system_homework.Chat.Thread.Heard.{act, Obeys, Reach-Obeys}
use file_system_homework.Chat.Clients.View.{view, heard_from}
use file_system_homework.Chat.Thread.Served.{IsServed, Reach-IsServed}
use file_system_homework.Chat.Thread.Numbers.{lookup_id_stale}

abbrev one_thread : Server
one_thread = look_up 0 (record { fd = 5; phase = starting }) (accept 5 0 start)

one_thread-Reach : Reach one_thread
unfolding accept add_client take_slot empty_room total
one_thread-Reach =
    later [] (later [] starts (accepts 5 0 refl))
      (looks_up 0 (record { fd = 5; phase = starting }) refl refl)

Reach-IsServed_example : IsServed one_thread
Reach-IsServed_example = Reach-IsServed one_thread-Reach

abbrev serving_thread : Thread
serving_thread = record { fd = 5; phase = serving (some 1) }

abbrev hi : List ℕ
hi = b'h' ∷ b'i' ∷ []

hi-Step : Step one_thread one_thread (speak serving_thread (some 1) hi one_thread)
unfolding look_up accept add_client take_slot empty_room lookup_id
hi-Step = speaks 0 serving_thread (some 1) hi refl refl

Reach-Obeys_example :
    Obeys
      (act hi-Step)
      (view one_thread.room)
      (view one_thread.room)
      (heard_from (speak serving_thread (some 1) hi one_thread))
Reach-Obeys_example = Reach-Obeys hi-Step one_thread-Reach

-- Client 1 had descriptor 5 and is there no more, client 2 left descriptor 6 in the second slot.
abbrev free : Client
free = record { fd = 5; id = 1; addr = 0; is_active = false }

abbrev left : List Client
left = record { fd = 6; id = 2; addr = 0; is_active = false } ∷ []

lookup_id_stale_example :
    (s' : Room) × (add_client 6 0 (record { clients = [] ++ (free ∷ left); total_connections = 2 })
      ≡ some s')
    × (find_id 6 s'.clients ≡ some 3)
    × (lookup_id 6 s'.clients ≡ some 2)
unfolding count_active count_fd lookup_id
lookup_id_stale_example = lookup_id_stale 6 0 2 2 [] free left refl refl refl refl

abbrev two : List Client
two = record { fd = 5; id = 1; addr = 0; is_active = true } ∷ left
