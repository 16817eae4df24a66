-- ===== src/Copy/Program/Laws.antt =====
-- hw3: what `main` leaves, whichever files open.
use file_system_homework.Base.{ℕ, ◌+◌, Bool, not, ◌&&◌, List, [], Option, some, if◌then◌else◌}
use file_system_homework.Copy.Program.{World, Calls}

abbrev calls : (src_opens dest_opens stats : Bool) → Calls
calls src_opens dest_opens stats = record {
  src_opens = src_opens;
  dest_opens = dest_opens;
  stats = stats;
}

abbrev pub after_blocking : Calls → World → World
after_blocking c w = record w {
  output = if c.src_opens && c.dest_opens then some w.input else w.output;
  open_fds = w.open_fds + (if c.src_opens && not c.dest_opens then 1 else 0);
}

abbrev pub after_async : Calls → World → World
after_async c w = record w {
  output =
      if not (c.src_opens && c.dest_opens)
      then w.output
      else if c.stats
      then some w.input
      else some [];
  rings = w.rings + (if c.src_opens && c.dest_opens && c.stats then 0 else 1);
}

module _ (w : World) where
  abbrev leaving : Option (List ℕ) → (open_fds rings blocks : ℕ) → World
  leaving output open_fds rings blocks = record w {
    output = output;
    open_fds = open_fds;
    rings = rings;
    blocks = blocks;
  }
