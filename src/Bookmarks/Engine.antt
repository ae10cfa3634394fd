-- ===== src/Bookmarks/Engine.antt =====
-- The engine of librarian/bookmark_monitor.py: which bookmarks it watches.
use log_librarian.Prelude.{
  String, Bool, true, false, Option, none, some, List, [], ◌∷◌, if◌then◌else◌, str_eq,
}
use log_librarian.Prelude.Dict.{Dict, contains, lookup, insert, delete}
use log_librarian.Bookmarks.Probes.{Bookmark}
use log_librarian.Bookmarks.Watching.{Watch, Turn, start_watch, watch_turn}

-- A task of `check_tasks`: the variables of its loop, or none once the loop ended.
abbrev pub Task : Type 0
Task = Option Watch

pub record BookmarkMonitor : Type 0 where
  pub running : Bool
  pub check_tasks : Dict Task

abbrev pub new_monitor : BookmarkMonitor
new_monitor = record { running = false; check_tasks = [] }

-- `bookmark_id in active_ids`
unfoldable pub is_listed : String → List Bookmark → Bool
is_listed id [] = false
is_listed id (b ∷ bs) = if str_eq b.id id then true else is_listed id bs

-- The task of a new loop; one that is created while the engine is stopped ends at once.
unfoldable pub task_of : Bool → Bookmark → Task
unfolding start_watch
task_of running b = if running then some (start_watch b) else none

-- `_start_monitor`
unfoldable pub start_monitor : Bool → Bookmark → Dict Task → Dict Task
unfolding contains insert task_of
start_monitor running b tasks =
    if contains b.id tasks then tasks else insert b.id (task_of running b) tasks

-- `_stop_monitor`: the task is cancelled and removed.
unfoldable pub stop_monitor : String → Dict Task → Dict Task
unfolding contains delete
stop_monitor id tasks = if contains id tasks then delete id tasks else tasks

-- The loop of the new bookmarks, for the tasks at the begin of the call.
unfoldable pub start_new : Bool → Dict Task → List Bookmark → Dict Task → Dict Task
unfolding start_monitor contains
start_new is_running running [] tasks = tasks
start_new is_running running (b ∷ bs) tasks =
    start_new is_running running bs
      (if contains b.id running then tasks else start_monitor is_running b tasks)

-- The loop of the keys that are not active, in some order.
unfoldable pub stop_old : List Bookmark → Dict Task → Dict Task → Dict Task
unfolding stop_monitor is_listed
stop_old active [] tasks = tasks
stop_old active ((id, t) ∷ running) tasks =
    stop_old active running (if is_listed id active then tasks else stop_monitor id tasks)

-- `_sync_monitors`, for the answer of `get_all_bookmarks`, none where it raises.
unfoldable pub sync_monitors : Option (List Bookmark) → BookmarkMonitor → BookmarkMonitor
unfolding start_new stop_old
sync_monitors none m = m
sync_monitors (some active) m = record m {
  check_tasks =
      stop_old active m.check_tasks (start_new m.running m.check_tasks active m.check_tasks);
}

unfoldable pub start : Option (List Bookmark) → BookmarkMonitor → BookmarkMonitor
unfolding sync_monitors
start active m = if m.running then m else sync_monitors active (record m { running = true })

unfoldable pub stop : BookmarkMonitor → BookmarkMonitor
stop m = if m.running then record { running = false; check_tasks = [] } else m

-- A turn of the loop of a bookmark, if it has one that runs.
unfoldable pub advance : String → Turn → BookmarkMonitor → BookmarkMonitor
unfolding watch_turn
advance id t m = elim (lookup id m.check_tasks) [
  | none ↦ m
  | some none ↦ m
  | some (some w) ↦ record m { check_tasks = insert id (watch_turn t w).next m.check_tasks }
]
