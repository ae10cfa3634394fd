-- ===== src/Bookmarks/Watching.antt =====
-- `_monitor_loop` of librarian/bookmark_monitor.py, turn by turn.
use Prim.Native.String.{◌++◌}
use log_librarian.Prelude.{
  ℕ, String, Bool, true, false, Option, none, some, List, [], ◌∷◌, if◌then◌else◌,
}
use log_librarian.Prelude.Text.{str_nat}
use log_librarian.Bookmarks.Probes.{Status, down, up, CheckResult, Bookmark}

-- The variables of the loop; `tenant_id` is read once.
pub record Watch : Type 0 where
  pub bookmark_id : String
  pub tenant_id : String
  pub bookmark : Bookmark
  pub interval : ℕ
  pub last_status : Option Status

-- A call of `send_notification`.
pub record Notice : Type 0 where
  pub event_type : String
  pub title : String
  pub body : String
  pub tenant_id : String

-- What the calls of a turn do: `sends` is false where `send_notification` raises, which may be after
-- some channels were notified, `records` where `record_bookmark_check` does; `get_bookmark` gives a
-- bookmark or none, or raises.
pub data Reading : Type 0 where
  found : Bookmark → Reading
  not_found raises : Reading

pub record Turn : Type 0 where
  pub result : CheckResult
  pub sends : Bool
  pub records : Bool
  pub reading : Reading

-- What a turn leaves: the call of `send_notification` that it made, if it made one, with if that
-- returned; the check that was recorded; and the loop's variables, or none where the loop ended.
pub record After : Type 0 where
  pub notice : Option (Notice × Bool)
  pub check : Option CheckResult
  pub next : Option Watch

unfoldable pub start_watch : Bookmark → Watch
start_watch b = record {
  bookmark_id = b.id;
  tenant_id = b.tenant_id;
  bookmark = b;
  interval = b.interval_seconds;
  last_status = none;
}

unfoldable pub differs : Status → Status → Bool
differs down down = false
differs down up = true
differs up down = true
differs up up = false

-- `last_status is not None and result.status != last_status`
unfoldable pub is_change : Option Status → Status → Bool
unfolding differs
is_change none s = false
is_change (some l) s = differs s l

unfoldable pub notice_of : Status → Watch → CheckResult → Notice
notice_of down m r = record {
  event_type = "bookmark_down";
  title = "Bookmark Down: " ++ m.bookmark.name;
  body =
      "Bookmark '" ++ m.bookmark.name ++ "' (" ++ m.bookmark.target ++ ") is DOWN.\nError: "
      ++ r.message;
  tenant_id = m.tenant_id;
}
notice_of up m r = record {
  event_type = "bookmark_up";
  title = "Bookmark Recovered: " ++ m.bookmark.name;
  body =
      "Bookmark '"
      ++ m.bookmark.name
      ++ "' is back ONLINE.\nLatency: "
      ++ str_nat r.latency_ms
      ++ "ms";
  tenant_id = m.tenant_id;
}

-- The end of a turn, past its sleep: the bookmark is read again.
unfoldable pub refresh : Reading → Watch → Option Watch
refresh raises m = some m
refresh not_found m = none
refresh (found b) m =
    if b.active then some (record m { bookmark = b; interval = b.interval_seconds }) else none

-- A turn from the recording of its check, for the call that it made before.
unfoldable pub record_check : Turn → Option (Notice × Bool) → Watch → After
unfolding refresh
record_check t notice m =
    if t.records
    then record { notice = notice; check = some t.result; next = refresh t.reading m }
    else record { notice = notice; check = none; next = some m }

-- A turn of the loop. An exception ends the turn, and not the loop.
unfoldable pub watch_turn : Turn → Watch → After
unfolding is_change notice_of record_check
watch_turn t m =
    let m' : Watch = record m { last_status = some t.result.status } in
    let notice = notice_of t.result.status m t.result in
    if is_change m.last_status t.result.status
    then (if t.sends
        then record_check t (some (notice, true)) m'
        else record { notice = some (notice, false); check = none; next = some m })
    else record_check t none m'

unfoldable pub put : {A : Type 0} → Option A → List A → List A
put none xs = xs
put (some x) xs = x ∷ xs

-- One run of the loop over some turns, as long as it lasts: its calls of `send_notification` in their
-- order, each with if it returned.
unfoldable pub notices : List Turn → Option Watch → List (Notice × Bool)
unfolding watch_turn put
notices [] m = []
notices (t ∷ ts) none = []
notices (t ∷ ts) (some m) = let after = watch_turn t m in put after.notice (notices ts after.next)
