-- ===== src/Metrics/Buffer.antt =====
-- `MetricsBuffer` of librarian/metrics_buffer.py: its state, and the parts of `flush`. `M` is the
-- type of a metrics row, `L` that of a load average, and `S` the database, which `db_insert`
-- changes; that function, and the clock, are arguments.
use log_librarian.Prelude.{
  ℕ, String, Bool, true, false, not, ◌&&◌, Option, List, [], ◌∷◌, ◌++◌, ltb, length, str_eq,
  if◌then◌else◌,
}
use log_librarian.Prelude.Dict.{Dict, insert, get_or, sum_values}
use log_librarian.Metrics.Stats.{BufferStats, no_stats, record_flush, count_error}

pub record Config : Type 0 where
  pub max_buffer_size : ℕ
  pub use_postgres : Bool
  pub backpressure_warning_size : ℕ
  pub small_deployment_threshold : ℕ

-- What a call of `db_insert_func` ends with; it may return a number.
pub data Inserted : Type 0 where
  returned : Option ℕ → Inserted
  raised : Inserted

pub record MetricsBuffer (M L : Type 0) : Type 0 where
  pub config : Config
  pub buffer : Dict (List M)
  pub load_avg_cache : Dict L
  pub stats : BufferStats
  pub running : Bool
  pub active_agents : List String

-- `__init__`
abbrev pub new_buffer : {M L : Type 0} → Config → MetricsBuffer M L
new_buffer config = record {
  config = config;
  buffer = [];
  load_avg_cache = [];
  stats = no_stats;
  running = false;
  active_agents = [];
}

unfoldable pub rows : {M : Type 0} → Dict (List M) → ℕ
rows d = sum_values length d

unfoldable pub buffer_size : {M L : Type 0} → MetricsBuffer M L → ℕ
unfolding rows
buffer_size b = rows b.buffer

unfoldable pub is_small_deployment : {M L : Type 0} → MetricsBuffer M L → Bool
is_small_deployment b =
    ltb (length b.active_agents) b.config.small_deployment_threshold && not b.config.use_postgres

-- `self._active_agents.add(agent_id)`
unfoldable pub add_agent : String → List String → List String
add_agent k [] = k ∷ []
add_agent k (j ∷ js) = let rest = add_agent k js in if str_eq j k then j ∷ js else j ∷ rest

-- `self._buffer[agent_id].extend(metrics)`
unfoldable pub extend : {M : Type 0} → String → List M → Dict (List M) → Dict (List M)
extend k ms d = insert k (get_or k d [] ++ ms) d

-- The loop of `flush` that puts a snapshot back behind what is in the buffer.
unfoldable pub extend_all : {M : Type 0} → Dict (List M) → Dict (List M) → Dict (List M)
unfolding extend
extend_all [] d = d
extend_all ((k, ms) ∷ snapshot) d = extend_all snapshot (extend k ms d)

-- `d.update(snapshot)`
unfoldable pub update_all : {L : Type 0} → Dict L → Dict L → Dict L
update_all [] d = d
update_all ((k, v) ∷ snapshot) d = update_all snapshot (insert k v d)

module _ {M L : Type 0} where
  -- The part of `flush` under its first lock.
  unfoldable pub take_snapshot : MetricsBuffer M L → MetricsBuffer M L
  take_snapshot b = record b { buffer = []; load_avg_cache = [] }

  -- The handler of `flush` for a failed write.
  unfoldable pub restore : Dict (List M) → Dict L → MetricsBuffer M L → MetricsBuffer M L
  unfolding extend_all update_all count_error
  restore snapshot loads b = record b {
    buffer = extend_all snapshot b.buffer;
    load_avg_cache = update_all loads b.load_avg_cache;
    stats = count_error b.stats;
  }

module _ {M L S : Type 0} (no_load : L) (db_insert : String → List M → L → S → Inserted × S) where
  -- `_flush_sqlite` and `_flush_postgres`: true if no insert raised. The first that raises ends it.
  unfoldable pub write_all : Dict (List M) → Dict L → S → Bool × S
  write_all [] loads s = (true, s)
  write_all ((k, []) ∷ d) loads s = write_all d loads s
  write_all ((k, m ∷ ms) ∷ d) loads s =
      let (r, s') = db_insert k (m ∷ ms) (get_or k loads no_load) s in
      elim r [ returned _ ↦ write_all d loads s' | raised ↦ (false, s') ]

  -- The end of `flush` on the outcome of the write: `now` and `latency` are the clock's.
  unfoldable pub finish :
      ℕ → ℕ → Dict (List M) → Dict L → Bool → MetricsBuffer M L → MetricsBuffer M L
  unfolding restore record_flush
  finish now latency snapshot loads true b = record b {
    stats = record_flush now (rows snapshot) latency b.stats;
  }
  finish now latency snapshot loads false b = restore snapshot loads b

  -- `flush` of a buffer that has an entry.
  unfoldable pub flush_entries : ℕ → ℕ → MetricsBuffer M L → S → MetricsBuffer M L × S
  unfolding take_snapshot write_all finish
  flush_entries now latency b s =
      let (written, s') = write_all b.buffer b.load_avg_cache s in
      (finish now latency b.buffer b.load_avg_cache written (take_snapshot b), s')

  -- `flush(force)`
  unfoldable pub flush : Bool → ℕ → ℕ → MetricsBuffer M L → S → MetricsBuffer M L × S
  unfolding flush_entries
  flush force now latency b s = elim b.buffer [
    | [] ↦ (if force then take_snapshot b else b, s)
    | _ ∷ _ ↦ flush_entries now latency b s
  ]
