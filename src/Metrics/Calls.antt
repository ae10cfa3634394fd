-- ===== src/Metrics/Calls.antt =====
-- The calls of `MetricsBuffer` that other parts of the program make, and its flush loop.
use log_librarian.Prelude.{
  ℕ, ◌+◌, String, true, false, Option, none, some, List, [], ◌∷◌, ltb, leb, length, if◌then◌else◌,
}
use log_librarian.Prelude.Dict.{insert}
use log_librarian.Metrics.Stats.{record_flush, record_insert, record_buffer_size, count_error}
use log_librarian.Metrics.Buffer.{
  MetricsBuffer, Inserted, returned, raised, buffer_size, is_small_deployment, add_agent, extend,
  flush,
}

-- A call made of the buffer, with the time and the latency that the clock gives its flush.
pub data Call (M L : Type 0) : Type 0 where
  started : Call M L
  added : ℕ → ℕ → String → List M → L → Call M L
  ticked : ℕ → ℕ → Call M L
  stopped : ℕ → ℕ → Call M L

module _ {M L : Type 0} where
  -- `if current_size > BACKPRESSURE_WARNING_SIZE`
  unfoldable pub warn : ℕ → MetricsBuffer M L → MetricsBuffer M L
  warn size b =
      if ltb b.config.backpressure_warning_size size
      then record b {
        stats = record b.stats { backpressure_warnings = b.stats.backpressure_warnings + 1 };
      }
      else b

  -- The part of `add_metrics` under the lock.
  unfoldable pub store : String → List M → L → MetricsBuffer M L → MetricsBuffer M L
  unfolding warn extend record_insert record_buffer_size
  store k ms load b =
      let stored : MetricsBuffer M L = record b {
        buffer = extend k ms b.buffer;
        load_avg_cache = insert k load b.load_avg_cache;
      } in
      warn (buffer_size stored) (record stored {
        stats = record_buffer_size (buffer_size stored) (record_insert (length ms) b.stats);
      })

  unfoldable pub start : MetricsBuffer M L → MetricsBuffer M L
  start b = record b { running = true }

module _ {M L S : Type 0} (no_load : L) (db_insert : String → List M → L → S → Inserted × S) where
  abbrev inserted_rows : Option ℕ → List M → ℕ
  inserted_rows none ms = length ms
  inserted_rows (some n) ms = n

  -- `_immediate_insert`
  unfoldable pub immediate_insert :
      ℕ → String → List M → L → MetricsBuffer M L → S → ℕ × MetricsBuffer M L × S
  unfolding record_flush record_insert count_error
  immediate_insert now k ms load b s =
      let (r, s') = db_insert k ms load s in
      elim r [
        | returned result ↦ (
          inserted_rows result ms,
          record b { stats = record_flush now (length ms) 0 (record_insert (length ms) b.stats) },
          s',
        )
        | raised ↦ (0, record b { stats = count_error b.stats }, s')
      ]

  -- `add_metrics` into the buffer: the flush, if the size asks for one, and the count returned.
  unfoldable pub buffered_insert :
      ℕ → ℕ → String → List M → L → MetricsBuffer M L → S → ℕ × MetricsBuffer M L × S
  unfolding store
  buffered_insert now latency k ms load b s =
      let b' = store k ms load b in
      let (b'', s') = flush no_load db_insert false now latency b' s in
      if leb b.config.max_buffer_size (buffer_size b')
      then (length ms, b'', s')
      else (length ms, b', s)

  unfoldable pub add_metrics :
      ℕ → ℕ → String → List M → L → MetricsBuffer M L → S → ℕ × MetricsBuffer M L × S
  unfolding immediate_insert buffered_insert
  add_metrics now latency k [] load b s = (0, b, s)
  add_metrics now latency k (m ∷ ms) load b s =
      let b' : MetricsBuffer M L = record b { active_agents = add_agent k b.active_agents } in
      if is_small_deployment b'
      then immediate_insert now k (m ∷ ms) load b' s
      else buffered_insert now latency k (m ∷ ms) load b' s

  -- One round of `_flush_loop`, after its sleep.
  unfoldable pub flush_round : ℕ → ℕ → MetricsBuffer M L → S → MetricsBuffer M L × S
  flush_round now latency b s =
      if ltb 0 (buffer_size b) then flush no_load db_insert false now latency b s else (b, s)

  -- `stop`, where no flush of the loop is under way that its `cancel` would cut off.
  unfoldable pub stop : ℕ → ℕ → MetricsBuffer M L → S → MetricsBuffer M L × S
  stop now latency b s = flush no_load db_insert true now latency (record b { running = false }) s

  unfoldable pub call_buffer : Call M L → MetricsBuffer M L → S → MetricsBuffer M L × S
  unfolding add_metrics flush_round stop start
  call_buffer started b s = (start b, s)
  call_buffer (added now latency k ms load) b s =
      let (n, b', s') = add_metrics now latency k ms load b s in (b', s')
  call_buffer (ticked now latency) b s = flush_round now latency b s
  call_buffer (stopped now latency) b s = stop now latency b s

  unfoldable pub run_calls : List (Call M L) → MetricsBuffer M L → S → MetricsBuffer M L × S
  unfolding call_buffer
  run_calls [] b s = (b, s)
  run_calls (c ∷ cs) b s = let (b', s') = call_buffer c b s in run_calls cs b' s'
