-- ===== src/Bookmarks/Examples.antt =====
-- The theorems on the bookmark monitor at concrete inputs.
use log_librarian.Prelude.{◌≡◌, refl, ℕ, String, Bool, true, false, none, some, List, [], ◌∷◌}
use log_librarian.Prelude.Dict.{lookup}
use log_librarian.Prelude.Text.{str_nat}
use log_librarian.Bookmarks.Probes.{
  Status, down, up, Bookmark, responded, ping_timeout, refused, Network, perform_check, http_result,
}
use log_librarian.Bookmarks.Watching.{Turn, Reading, found, not_found, raises, watch_turn}
use log_librarian.Bookmarks.Engine.{BookmarkMonitor, start, sync_monitors, advance, new_monitor}
use log_librarian.Bookmarks.Sync.{tracked, sync_monitors_tracks_active}

abbrev bookmark : String → Bool → Bookmark
bookmark id active = record {
  id = id;
  tenant_id = "default";
  name = "Docs";
  check_type = "http";
  target = "docs.example.org";
  port = none;
  interval_seconds = 60;
  timeout_seconds = 10;
  active = active;
}

-- A network whose web server answers with the code that the world holds.
abbrev network : Network ℕ
network = record {
  http_get = λ url timeout w. ((responded w, 12), w);
  ping = λ host timeout w. ((ping_timeout, 12), w);
  open_connection = λ host port timeout w. ((refused, 12), w);
  host_of = λ url. url;
  ping_time = λ output. none;
}

check_fails :
    (perform_check network (bookmark "b1" true) 503).0
    ≡ record { status = down; latency_ms = 12; message = "HTTP 503" }
unfolding perform_check http_result str_nat
check_fails = refl

abbrev turn : Status → Bool → Reading → Turn
turn status sends reading = record {
  result = record { status = status; latency_ms = 12; message = "HTTP 503" };
  sends = sends;
  records = true;
  reading = reading;
}

abbrev turns : List Turn
turns =
    turn up true (found (bookmark "b1" true))
    ∷ turn down false (found (bookmark "b1" true))
    ∷ turn down true raises
    ∷ turn up true (found (bookmark "b1" true))
    ∷ turn down true not_found
    ∷ []

-- The loop ended as its bookmark was deactivated, and before the engine saw that, the bookmark was
-- active again.
abbrev monitor : BookmarkMonitor
monitor = record { running = true; check_tasks = ("b1", none) ∷ [] }

monitor_lem :
    advance "b1"
      (turn up true (found (bookmark "b1" false)))
      (start (some (bookmark "b1" true ∷ [])) new_monitor)
    ≡ monitor
unfolding advance start watch_turn
monitor_lem = refl

sync_monitors_tracks_active_example :
    lookup "b1"
      (sync_monitors (some (bookmark "b1" true ∷ bookmark "b2" true ∷ [])) monitor).check_tasks
    ≡ tracked true "b1" (bookmark "b1" true ∷ bookmark "b2" true ∷ []) (some none)
unfolding lookup
sync_monitors_tracks_active_example =
    sync_monitors_tracks_active "b1" (bookmark "b1" true ∷ bookmark "b2" true ∷ []) monitor
