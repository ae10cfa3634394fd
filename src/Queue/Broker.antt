-- ===== src/Queue/Broker.antt =====
-- What librarian/redis_queue.py uses of Redis, and the state of `RedisQueueManager`.
use log_librarian.Prelude.{ℕ, String, Bool, false, Option, List, ◌≡◌, some, drop}
use log_librarian.Prelude.Dict.{Dict}
use log_librarian.Retention.Tables.{limit}
use log_librarian.Queue.Stats.{QueueStats, no_queue_stats}

-- A message of the stream: its id and its fields.
abbrev pub Message : Type 0
Message = String × Dict String

-- The calls of Redis on the stream and its group, none where they raise; `R` is its state, with the
-- connection. `connect` is the making of a client and its ping, each false where it raises.
pub record Redis (R : Type 0) : Type 0 where
  pub xadd : ℕ → Dict String → R → Option R
  pub xreadgroup : ℕ → R → Option (List Message × R)
  pub xack : List String → R → Option R
  pub xinfo_stream : R → Option ℕ
  pub ping : R → Bool
  pub connect : R → Bool × Bool × R

-- A Redis that answers, and gives a group each message of the stream once, in order: a read takes
-- the first of the messages that were not delivered, and an acknowledgement leaves them.
pub record IsOrdered {R : Type 0} (redis : Redis R) : Type 0 where
  pub undelivered : R → List Message
  pub reads :
      (n : ℕ) (r : R)
      → (r' : R) × (redis.xreadgroup n r ≡ some (limit n (undelivered r), r'))
        × (undelivered r' ≡ drop n (undelivered r))
  pub acks :
      (ids : List String) (r : R)
      → (r' : R) × (redis.xack ids r ≡ some r') × (undelivered r' ≡ undelivered r)

pub record QueueManager : Type 0 where
  pub batch_size : ℕ
  pub max_stream_length : ℕ
  pub has_redis : Bool
  pub connected : Bool
  pub enabled : Bool
  pub running : Bool
  pub stats : QueueStats

abbrev pub new_queue : ℕ → ℕ → QueueManager
new_queue batch_size max_stream_length = record {
  batch_size = batch_size;
  max_stream_length = max_stream_length;
  has_redis = false;
  connected = false;
  enabled = false;
  running = false;
  stats = no_queue_stats;
}
