-- ===== src/Queue/Consumer.antt =====
-- `initialize`, `start`, `stop` and the consumer of librarian/redis_queue.py.
use log_librarian.Prelude.{
  ℕ, ◌+◌, String, Bool, true, false, ◌&&◌, ◌||◌, Option, none, some, List, [], ◌∷◌, length, str_eq,
  if◌then◌else◌,
}
use log_librarian.Prelude.Dict.{Dict, lookup, get_or}
use log_librarian.Queue.Stats.{record_consume, count_consume_errors}
use log_librarian.Queue.Broker.{Message, Redis, QueueManager}
use log_librarian.Queue.Publisher.{is_connected}

-- What the processing of some messages leaves: the ids of those that were processed, and the number
-- of those that raised.
pub record Processed (W : Type 0) : Type 0 where
  pub ids : List String
  pub errors : ℕ
  pub world : W

-- `loads` is `json.loads` and `parse_float` is `float`, none where they raise; `zero_float` is 0.0;
-- `write` is the callback, false where it raises.
module _ {J F W : Type 0} (loads : String → Option J) (parse_float : String → Option F)
    (zero_float : F) (write : Option (String → J → F → W → Bool × W)) where
  -- `float(data.get("load_avg", 0.0))`
  unfoldable pub load_of : Option String → Option F
  load_of none = some zero_float
  load_of (some text) = parse_float text

  unfoldable pub call_write : Option (String → J → F → W → Bool × W) → String → J → F → W → Bool × W
  call_write none agent_id metrics load_avg w = (true, w)
  call_write (some f) agent_id metrics load_avg w = f agent_id metrics load_avg w

  -- `_process_message` for the agent of the message: false where it raises.
  unfoldable pub process_for : Option String → Dict String → W → Bool × W
  unfolding load_of call_write
  process_for none fields w = (true, w)
  process_for (some agent_id) fields w =
      if str_eq agent_id "" then (true, w) else elim (loads (get_or "metrics" fields "[]")) [
        | none ↦ (false, w)
        | some metrics ↦ elim (load_of (lookup "load_avg" fields)) [
          | none ↦ (false, w)
          | some load_avg ↦ call_write write agent_id metrics load_avg w
        ]
      ]

  -- `_process_message`
  unfoldable pub process_message : Dict String → W → Bool × W
  unfolding process_for lookup
  process_message fields w = process_for (lookup "agent_id" fields) fields w

  -- The loop over the messages of a read.
  unfoldable pub process_all : List Message → W → Processed W
  unfolding process_message
  process_all [] w = record { ids = []; errors = 0; world = w }
  process_all ((id, fields) ∷ rest) w =
      let (done, w') = process_message fields w in
      let p = process_all rest w' in
      if done then record p { ids = id ∷ p.ids } else record p { errors = p.errors + 1 }

  module _ {R : Type 0} (redis : Redis R) where
    -- `_reconnect`, where the lock is free.
    unfoldable pub reconnect : QueueManager → R → QueueManager × R
    reconnect q r =
        let counted : QueueManager = record q {
          stats = record q.stats { reconnection_attempts = q.stats.reconnection_attempts + 1 };
        } in
        let (made, answers, r') = redis.connect r in
        if q.connected
        then (q, r)
        else (record counted { connected = made && answers; has_redis = q.has_redis || made }, r')

    -- `_update_queue_depth`, of which the estimate of the lag is left out.
    unfoldable pub update_queue_depth : R → QueueManager → QueueManager
    update_queue_depth r q = elim (redis.xinfo_stream r) [
      | none ↦ q
      | some n ↦ record q { stats = record q.stats { current_queue_depth = n } }
    ]

    -- `if processed_ids`: the acknowledgement and the statistics, none where `xack` raises.
    unfoldable pub acknowledge : ℕ → ℕ → List String → QueueManager → R → Option (QueueManager × R)
    acknowledge now latency [] q r = some (q, r)
    acknowledge now latency (id ∷ ids) q r = elim (redis.xack (id ∷ ids) r) [
      | none ↦ none
      | some r' ↦
          some (record q { stats = record_consume now (length (id ∷ ids)) latency q.stats }, r')
    ]

    -- A turn past its read.
    unfoldable pub after_read : ℕ → ℕ → List Message → QueueManager → R → W → QueueManager × R × W
    unfolding process_all acknowledge update_queue_depth
    after_read now latency [] q r w = (q, r, w)
    after_read now latency (m ∷ ms) q r w =
        let p = process_all (m ∷ ms) w in
        let q' : QueueManager = record q { stats = count_consume_errors p.errors q.stats } in
        elim (acknowledge now latency p.ids q' r) [
          | none ↦ (record q' { stats = count_consume_errors 1 q'.stats }, r, p.world)
          | some (q'', r') ↦ (update_queue_depth r' q'', r', p.world)
        ]

    -- A turn of `_consumer_worker`.
    unfoldable pub consumer_turn : ℕ → ℕ → QueueManager → R → W → QueueManager × R × W
    unfolding after_read reconnect is_connected
    consumer_turn now latency q r w =
        if is_connected q
        then elim (redis.xreadgroup q.batch_size r) [
          | none ↦ (record q { stats = count_consume_errors 1 q.stats }, r, w)
          | some (ms, r') ↦ after_read now latency ms q r' w
        ]
        else (let (q', r') = reconnect q r in (q', r', w))

    -- The turns that are made while `_running` holds, for the times of each.
    unfoldable pub consume : List (ℕ × ℕ) → QueueManager → R → W → QueueManager × R × W
    unfolding consumer_turn
    consume [] q r w = (q, r, w)
    consume ((now, latency) ∷ times) q r w =
        let (q', r', w') = consumer_turn now latency q r w in consume times q' r' w'

-- `initialize` past the import of the library, for the setting `REDIS_QUEUE_ENABLED`, if a client
-- is made, and if it then answers and has the group; none where it raises.
unfoldable pub initialize : String → Bool → Bool → QueueManager → Option (Bool × QueueManager)
initialize setting made answers q =
    if str_eq setting "false"
    then some (false, record q { enabled = false })
    else if made && answers
    then some (true, record q { has_redis = true; connected = true; enabled = true })
    else if str_eq setting "true"
    then none
    else some
        (false, record q { has_redis = q.has_redis || made; connected = false; enabled = false })

-- `start`, and if a task is created.
unfoldable pub start : QueueManager → QueueManager × Bool
start q = if q.enabled && q.connected then (record q { running = true }, true) else (q, false)

unfoldable pub stop : QueueManager → QueueManager
stop q = record q { running = false; connected = false }
