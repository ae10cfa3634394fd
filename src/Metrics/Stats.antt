-- ===== src/Metrics/Stats.antt =====
-- `BufferStats` of librarian/metrics_buffer.py. A latency is a whole number of microseconds; an
-- average stands as the sum of the samples and their number.
use log_librarian.Prelude.{ℕ, ◌+◌, List, [], ◌∷◌, ◌++◌, ltb, length, drop, if◌then◌else◌}

pub record BufferStats : Type 0 where
  pub total_inserts : ℕ
  pub total_flushes : ℕ
  pub total_rows_flushed : ℕ
  pub last_flush_time : ℕ
  pub last_flush_latency : ℕ
  pub avg_flush_latency : ℕ × ℕ
  pub max_buffer_size_seen : ℕ
  pub backpressure_warnings : ℕ
  pub flush_errors : ℕ
  pub latency_samples : List ℕ
  pub max_samples : ℕ

abbrev pub no_stats : BufferStats
no_stats = record {
  total_inserts = 0;
  total_flushes = 0;
  total_rows_flushed = 0;
  last_flush_time = 0;
  last_flush_latency = 0;
  avg_flush_latency = (0, 1);
  max_buffer_size_seen = 0;
  backpressure_warnings = 0;
  flush_errors = 0;
  latency_samples = [];
  max_samples = 100;
}

unfoldable pub sum : List ℕ → ℕ
sum [] = 0
sum (x ∷ xs) = x + sum xs

-- The samples with one more, less the oldest where there are too many.
unfoldable pub add_sample : ℕ → ℕ → List ℕ → List ℕ
add_sample max_samples latency samples =
    if ltb max_samples (length (samples ++ latency ∷ []))
    then drop 1 (samples ++ latency ∷ [])
    else samples ++ latency ∷ []

unfoldable pub record_flush : ℕ → ℕ → ℕ → BufferStats → BufferStats
unfolding add_sample sum
record_flush now rows latency s =
    let samples = add_sample s.max_samples latency s.latency_samples in
    record s {
      total_flushes = s.total_flushes + 1;
      total_rows_flushed = s.total_rows_flushed + rows;
      last_flush_time = now;
      last_flush_latency = latency;
      latency_samples = samples;
      avg_flush_latency = (sum samples, length samples);
    }

unfoldable pub record_insert : ℕ → BufferStats → BufferStats
record_insert count s = record s { total_inserts = s.total_inserts + count }

unfoldable pub record_buffer_size : ℕ → BufferStats → BufferStats
record_buffer_size size s =
    if ltb s.max_buffer_size_seen size then record s { max_buffer_size_seen = size } else s

unfoldable pub count_error : BufferStats → BufferStats
count_error s = record s { flush_errors = s.flush_errors + 1 }
