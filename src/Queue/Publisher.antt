-- ===== src/Queue/Publisher.antt =====
-- `publish_metrics` and `_fallback_write` of librarian/redis_queue.py.
use log_librarian.Prelude.{
  ℕ, ◌+◌, String, Bool, true, false, ◌&&◌, Option, none, some, [], ◌∷◌, ◌++◌, str_eq, if◌then◌else◌,
}
use log_librarian.Prelude.Dict.{Dict}
use log_librarian.Queue.Stats.{record_publish, count_publish_error}
use log_librarian.Queue.Broker.{Redis, QueueManager}

-- The arguments: `J` is the type of a JSON value and `F` that of a float.
pub record Published (J F : Type 0) : Type 0 where
  pub agent_id : String
  pub metrics : J
  pub load_avg : F
  pub hostname : Option String
  pub status : Option String
  pub public_ip : Option String
  pub processes : Option J

-- `is_connected`
unfoldable pub is_connected : QueueManager → Bool
is_connected q = q.connected && q.has_redis

-- A field that stands where its value is true.
unfoldable pub text_field : String → Option String → Dict String
text_field name none = []
text_field name (some text) = if str_eq text "" then [] else (name, text) ∷ []

-- `dumps` is `json.dumps`, none where it raises, `truthy` a Boolean test of a value, `print_float`
-- `str` of a float, and `fallback` the callback, false where it raises.
module _ {J F W : Type 0} (dumps : J → Option String) (truthy : J → Bool) (print_float : F → String)
    (fallback : Option (String → J → F → W → Bool × W)) where
  unfoldable pub json_field : String → Option J → Option (Dict String)
  json_field name none = some []
  json_field name (some j) =
      if truthy j
      then elim (dumps j) [ none ↦ none | some text ↦ some ((name, text) ∷ []) ]
      else some []

  -- The fields of the message, none where `json.dumps` raises.
  unfoldable pub message_of : String → Published J F → Option (Dict String)
  unfolding json_field text_field
  message_of now p = elim (dumps p.metrics) [
    | none ↦ none
    | some metrics ↦ elim (json_field "processes" p.processes) [
      | none ↦ none
      | some processes ↦ some (
          ("agent_id", p.agent_id)
            ∷ ("timestamp", now)
            ∷ ("metrics", metrics)
            ∷ ("load_avg", print_float p.load_avg)
            ∷ text_field "hostname" p.hostname
          ++ text_field "status" p.status
          ++ text_field "public_ip" p.public_ip
          ++ processes)
    ]
  ]

  -- The call of the callback, and what `_fallback_write` returns.
  unfoldable pub call_fallback :
      Option (String → J → F → W → Bool × W) → Published J F → W → Bool × W
  call_fallback none p w = (false, w)
  call_fallback (some f) p w = f p.agent_id p.metrics p.load_avg w

  -- `_fallback_write`
  unfoldable pub fallback_write : Published J F → QueueManager → W → Bool × QueueManager × W
  unfolding call_fallback
  fallback_write p q w =
      let (written, w') = call_fallback fallback p w in
      (
        written,
        record q {
          stats = record q.stats { fallback_direct_writes = q.stats.fallback_direct_writes + 1 };
        },
        w',
      )

  -- `xadd` of a message, if there is one.
  unfoldable pub add_message : {R : Type 0} → Redis R → ℕ → Option (Dict String) → R → Option R
  add_message redis length none r = none
  add_message redis length (some m) r = redis.xadd length m r

  -- `_check_connection`
  unfoldable pub check_connection : {R : Type 0} → Redis R → R → QueueManager → QueueManager
  check_connection redis r q =
      if q.has_redis then (if redis.ping r then q else record q { connected = false }) else q

  -- `publish_metrics`: `text` is the time of the message, `now` and `latency` are of the statistics.
  unfoldable pub publish_metrics :
      {R : Type 0}
      → Redis R
      → String
      → ℕ
      → ℕ
      → Published J F
      → QueueManager
      → R
      → W
      → Bool × QueueManager × R × W
  unfolding is_connected message_of fallback_write add_message check_connection
  publish_metrics redis text now latency p q r w =
      if is_connected q
      then elim (add_message redis q.max_stream_length (message_of text p) r) [
        | some r' ↦ (true, record q { stats = record_publish now latency q.stats }, r', w)
        | none ↦
            let q' = check_connection redis r (record q { stats = count_publish_error q.stats }) in
            let (written, q'', w') = fallback_write p q' w in (written, q'', r, w')
      ]
      else (let (written, q', w') = fallback_write p q w in (written, q', r, w'))
