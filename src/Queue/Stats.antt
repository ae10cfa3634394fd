-- ===== src/Queue/Stats.antt =====
-- `RedisQueueStats` of librarian/redis_queue.py. Times and latencies are whole milliseconds.
use log_librarian.Prelude.{ℕ, ◌+◌, List, [], ◌∷◌, ◌++◌, length, ltb, drop, if◌then◌else◌}

pub record QueueStats : Type 0 where
  pub messages_published : ℕ
  pub messages_consumed : ℕ
  pub batches_processed : ℕ
  pub publish_errors : ℕ
  pub consume_errors : ℕ
  pub last_publish_time : ℕ
  pub last_consume_time : ℕ
  pub current_queue_depth : ℕ
  pub fallback_direct_writes : ℕ
  pub reconnection_attempts : ℕ
  pub publish_latencies : List ℕ
  pub consume_latencies : List ℕ
  pub max_samples : ℕ

abbrev pub no_queue_stats : QueueStats
no_queue_stats = record {
  messages_published = 0;
  messages_consumed = 0;
  batches_processed = 0;
  publish_errors = 0;
  consume_errors = 0;
  last_publish_time = 0;
  last_consume_time = 0;
  current_queue_depth = 0;
  fallback_direct_writes = 0;
  reconnection_attempts = 0;
  publish_latencies = [];
  consume_latencies = [];
  max_samples = 100;
}

-- A list of samples with one more, of which the first is dropped where they are too many.
unfoldable pub sample : ℕ → ℕ → List ℕ → List ℕ
sample max_samples latency latencies =
    let grown = latencies ++ latency ∷ [] in
    if ltb max_samples (length grown) then drop 1 grown else grown

unfoldable pub record_publish : ℕ → ℕ → QueueStats → QueueStats
unfolding sample
record_publish now latency s = record s {
  messages_published = s.messages_published + 1;
  last_publish_time = now;
  publish_latencies = sample s.max_samples latency s.publish_latencies;
}

unfoldable pub record_consume : ℕ → ℕ → ℕ → QueueStats → QueueStats
unfolding sample
record_consume now count latency s = record s {
  messages_consumed = s.messages_consumed + count;
  batches_processed = s.batches_processed + 1;
  last_consume_time = now;
  consume_latencies = sample s.max_samples latency s.consume_latencies;
}

unfoldable pub count_publish_error : QueueStats → QueueStats
count_publish_error s = record s { publish_errors = s.publish_errors + 1 }

unfoldable pub count_consume_errors : ℕ → QueueStats → QueueStats
count_consume_errors n s = record s { consume_errors = s.consume_errors + n }
