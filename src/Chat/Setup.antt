-- ===== src/Chat/Setup.antt =====
-- hw4: how a server gets its listening socket, the same text in the three servers, and how its `main` may end. Whether each
-- call succeeds is an argument; the result of `setsockopt` is not looked at.
use file_system_homework.Base.{ℕ, Bool, not, List, [], ◌++◌, Option, some, if◌then◌else◌}
use file_system_homework.Chat.Clients.{Send}

pub record Calls : Type 0 where
  pub socket : Bool
  pub bind : Bool
  pub listen : Bool

-- The exit code, once `main` has ended; the descriptors of its own that it has open; the clients; all that was sent.
pub record Exit (S : Type 0) : Type 0 where
  pub code : Option ℕ
  pub own_fds : ℕ
  pub server : S
  pub sends : List Send

module _ {S : Type 0} where
  -- `return code`, with nothing sent any more.
  abbrev pub ends_with : Option ℕ → ℕ → S → Exit S
  ends_with code own_fds server = record {
    code = code;
    own_fds = own_fds;
    server = server;
    sends = [];
  }

  abbrev pub behind_sends : List Send → Exit S → Exit S
  behind_sends sends r = record r { sends = sends ++ r.sends }

  -- From `socket` to `listen`, and what follows them.
  unfoldable pub listening : Calls → S → Exit S → Exit S
  listening c start rest =
      if not c.socket
      then ends_with (some 1) 0 start
      else if not c.bind
      then ends_with (some 1) 1 start
      else if not c.listen
      then ends_with (some 1) 1 start
      else rest
