-- ===== src/Bookmarks/Alternation.antt =====
-- The notices that the loop of a bookmark sends.
use log_librarian.Prelude.{Bool, ◌≡◌, String, true, false, Option, none, some, List, [], ◌∷◌}
use log_librarian.Bookmarks.Probes.{Status, down, up}
use log_librarian.Bookmarks.Watching.{Watch, Notice, Turn}

abbrev pub event_of : Status → String
event_of down = "bookmark_down"
event_of up = "bookmark_up"

abbrev pub other : Status → Status
other down = up
other up = down

-- The calls of a loop whose last status told was `l`: the next call tells the other status. If it
-- returns, that is the last status told from then on; if it raises, the next call tells it again.
abbrev pub IsAlternatingAfter : Status → List (Notice × Bool) → Type 0
IsAlternatingAfter l [] = Unit
IsAlternatingAfter l ((n, true) ∷ ns) =
    (n.event_type ≡ event_of (other l)) × IsAlternatingAfter (other l) ns
IsAlternatingAfter l ((n, false) ∷ ns) =
    (n.event_type ≡ event_of (other l)) × IsAlternatingAfter l ns

-- The loop's variables, where it runs, have a last status.
abbrev IsKnown : Status → Option Watch → Type 0
IsKnown s none = Unit
IsKnown s (some m) = m.last_status ≡ some s

module _ (t : Turn) (m : Watch) where
  -- The loop's variables past the notice.
  abbrev told : Watch
  told = record m { last_status = some t.result.status }
