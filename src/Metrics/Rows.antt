-- ===== src/Metrics/Rows.antt =====
-- The rows that were counted in, against those flushed and those in the buffer.
use log_librarian.Prelude.{
  ◌∙◌, ℕ, ◌+◌, ◌≡◌, refl, ap, String, Bool, true, false, Option, List, [], ◌∷◌, arith, length, leb,
  ltb, Bool-cases, inl, inr, ◌⊎◌,
}
use log_librarian.Prelude.Dict.{Dict, sum_values}
use log_librarian.Metrics.Stats.{record_flush, record_insert, record_buffer_size, count_error}
use log_librarian.Metrics.Buffer.{
  MetricsBuffer, Inserted, returned, raised, rows, buffer_size, extend, take_snapshot, restore,
  finish, write_all, flush_entries, flush, is_small_deployment, add_agent,
}
use log_librarian.Metrics.Calls.{
  warn, store, start, immediate_insert, buffered_insert, add_metrics, flush_round, stop, Call,
  started, added, ticked, stopped, call_buffer, run_calls,
}
use log_librarian.Metrics.Contents.{rows-extend, rows-extend_all}

-- The rows counted by `record_insert` are those counted as flushed and those in the buffer.
pub record IsBalanced {M : Type 0} {L : Type 0} (b : MetricsBuffer M L) : Type 0 where
  pub balance : b.stats.total_inserts ≡ b.stats.total_rows_flushed + buffer_size b

rows-nil : (M : Type 0) → rows {M = M} [] ≡ 0
unfolding rows sum_values
rows-nil M = refl

Dict-cases :
    {M : Type 0} (d : Dict (List M))
    → (d ≡ []) ⊎ ((e : String × List M) × (rest : Dict (List M)) × (d ≡ e ∷ rest))
Dict-cases [] = inl refl
Dict-cases (e ∷ d) = inr (e, d, refl)

pub Inserted-cases : (r : Inserted) → ((n : Option ℕ) × (r ≡ returned n)) ⊎ (r ≡ raised)
Inserted-cases (returned n) = inl (n, refl)
Inserted-cases raised = inr refl

module _ {M L : Type 0} where
  pub buffer-store :
      (k : String) (ms : List M) (load : L) (b : MetricsBuffer M L)
      → (store k ms load b).buffer ≡ extend k ms b.buffer
  unfolding store warn
  buffer-store k ms load b = ground arith

  pub config-store :
      (k : String) (ms : List M) (load : L) (b : MetricsBuffer M L)
      → (store k ms load b).config ≡ b.config
  unfolding store warn
  config-store k ms load b = ground arith

  inserts-store :
      (k : String) (ms : List M) (load : L) (b : MetricsBuffer M L)
      → (store k ms load b).stats.total_inserts ≡ b.stats.total_inserts + length ms
  unfolding store warn record_insert record_buffer_size
  inserts-store k ms load b = ground arith

  flushed-store :
      (k : String) (ms : List M) (load : L) (b : MetricsBuffer M L)
      → (store k ms load b).stats.total_rows_flushed ≡ b.stats.total_rows_flushed
  unfolding store warn record_insert record_buffer_size
  flushed-store k ms load b = ground arith

  store-IsBalanced :
      (k : String) (ms : List M) (load : L) (b : MetricsBuffer M L)
      → IsBalanced b
      → IsBalanced (store k ms load b)
  unfolding buffer_size
  store-IsBalanced k ms load b h = record {
    balance =
        rw (inserts-store k ms load b, flushed-store k ms load b, buffer-store k ms load b)
          (omega (arith, h.balance, rows-extend k ms b.buffer));
  }

module _ {M L S : Type 0} (no_load : L) (db_insert : String → List M → L → S → Inserted × S) where
  finish-IsBalanced :
      (now latency : ℕ) (loads : Dict L) (written : Bool) (b : MetricsBuffer M L)
      → IsBalanced b
      → IsBalanced (finish no_load db_insert now latency b.buffer loads written (take_snapshot b))
  unfolding finish take_snapshot buffer_size restore record_flush count_error
  finish-IsBalanced now latency loads true b h = record {
    balance = omega (arith, h.balance, rows-nil M);
  }
  finish-IsBalanced now latency loads false b h = record {
    balance = omega (arith, h.balance, rows-nil M, rows-extend_all b.buffer []);
  }

  flush_entries-IsBalanced :
      (now latency : ℕ) (b : MetricsBuffer M L) (s : S)
      → IsBalanced b
      → IsBalanced (flush_entries no_load db_insert now latency b s).0
  unfolding flush_entries
  flush_entries-IsBalanced now latency b s h =
      finish-IsBalanced now latency b.load_avg_cache
        (write_all no_load db_insert b.buffer b.load_avg_cache s).0 b h

  -- What `flush` is: nothing, a clearing of an empty buffer, or a flush of its entries.
  pub flush_cases :
      (force : Bool) (now latency : ℕ) (b : MetricsBuffer M L) (s : S)
      → (flush no_load db_insert force now latency b s ≡ (b, s))
        ⊎ ((flush no_load db_insert force now latency b s ≡ (take_snapshot b, s)) × (b.buffer ≡ []))
        ⊎ (flush no_load db_insert force now latency b s
            ≡ flush_entries no_load db_insert now latency b s)
  unfolding flush
  flush_cases true now latency b s = elim (Dict-cases b.buffer) [
    | inl e ↦ inr (inl (rw e refl, e))
    | inr (e, d, more) ↦ inr (inr (rw more refl))
  ]
  flush_cases false now latency b s = elim (Dict-cases b.buffer) [
    | inl e ↦ inl (rw e refl)
    | inr (e, d, more) ↦ inr (inr (rw more refl))
  ]

  clear-IsBalanced :
      (b : MetricsBuffer M L) → b.buffer ≡ [] → IsBalanced b → IsBalanced (take_snapshot b)
  unfolding take_snapshot buffer_size
  clear-IsBalanced b e h = record {
    balance = h.balance ∙ ap (λ d. b.stats.total_rows_flushed + rows d) e;
  }

  pub flush-IsBalanced :
      (force : Bool) (now latency : ℕ) (b : MetricsBuffer M L) (s : S)
      → IsBalanced b
      → IsBalanced (flush no_load db_insert force now latency b s).0
  flush-IsBalanced force now latency b s h = elim (flush_cases force now latency b s) [
    | inl e ↦ rw e h
    | inr (inl (e, empty)) ↦ rw e (clear-IsBalanced b empty h)
    | inr (inr e) ↦ rw e (flush_entries-IsBalanced now latency b s h)
  ]

  immediate_insert-IsBalanced :
      (now : ℕ) (k : String) (ms : List M) (load : L) (b : MetricsBuffer M L) (s : S)
      → IsBalanced b
      → IsBalanced (immediate_insert no_load db_insert now k ms load b s).1
  unfolding immediate_insert record_insert record_flush count_error buffer_size
  immediate_insert-IsBalanced now k ms load b s h =
      elim (Inserted-cases (db_insert k ms load s).0) [
        | inl (result, e) ↦ rw (e, immediate_insert) (record { balance = omega (arith, h.balance) })
        | inr e ↦ rw (e, immediate_insert) (record { balance = h.balance })
      ]

  buffered_insert-IsBalanced :
      (now latency : ℕ) (k : String) (ms : List M) (load : L) (b : MetricsBuffer M L) (s : S)
      → IsBalanced b
      → IsBalanced (buffered_insert no_load db_insert now latency k ms load b s).1
  unfolding buffered_insert
  buffered_insert-IsBalanced now latency k ms load b s h =
      let kept = store-IsBalanced k ms load b h in
      elim (Bool-cases (leb b.config.max_buffer_size (buffer_size (store k ms load b)))) [
        | inl e ↦ rw e (flush-IsBalanced false now latency (store k ms load b) s kept)
        | inr e ↦ rw e kept
      ]

  add_metrics-IsBalanced :
      (now latency : ℕ) (k : String) (ms : List M) (load : L) (b : MetricsBuffer M L) (s : S)
      → IsBalanced b
      → IsBalanced (add_metrics no_load db_insert now latency k ms load b s).1
  unfolding add_metrics buffer_size
  add_metrics-IsBalanced now latency k [] load b s h = h
  add_metrics-IsBalanced now latency k (m ∷ ms) load b s h =
      let b' : MetricsBuffer M L = record b { active_agents = add_agent k b.active_agents } in
      let h' : IsBalanced b' = record { balance = h.balance } in
      elim (Bool-cases (is_small_deployment b')) [
        | inl e ↦ rw e (immediate_insert-IsBalanced now k (m ∷ ms) load b' s h')
        | inr e ↦ rw e (buffered_insert-IsBalanced now latency k (m ∷ ms) load b' s h')
      ]

  flush_round-IsBalanced :
      (now latency : ℕ) (b : MetricsBuffer M L) (s : S)
      → IsBalanced b
      → IsBalanced (flush_round no_load db_insert now latency b s).0
  unfolding flush_round
  flush_round-IsBalanced now latency b s h = elim (Bool-cases (ltb 0 (buffer_size b))) [
    | inl e ↦ rw e (flush-IsBalanced false now latency b s h)
    | inr e ↦ rw e h
  ]

  step-IsBalanced :
      (c : Call M L) (b : MetricsBuffer M L) (s : S)
      → IsBalanced b
      → IsBalanced (call_buffer no_load db_insert c b s).0
  unfolding call_buffer start stop buffer_size
  step-IsBalanced started b s h = record { balance = h.balance }
  step-IsBalanced (added now latency k ms load) b s h =
      add_metrics-IsBalanced now latency k ms load b s h
  step-IsBalanced (ticked now latency) b s h = flush_round-IsBalanced now latency b s h
  step-IsBalanced (stopped now latency) b s h =
      flush-IsBalanced true now latency (record b { running = false }) s
        (record { balance = h.balance })

  -- Whatever calls are made of a balanced buffer, and whichever inserts into the database raise,
  -- the rows that `add_metrics` has counted in are as many as the rows that were counted as
  -- flushed and the rows still in the buffer together.
  pub calls-IsBalanced :
      (cs : List (Call M L)) (b : MetricsBuffer M L) (s : S)
      → IsBalanced b
      → IsBalanced (run_calls no_load db_insert cs b s).0
  unfolding run_calls
  calls-IsBalanced [] b s h = h
  calls-IsBalanced (c ∷ cs) b s h =
      calls-IsBalanced cs (call_buffer no_load db_insert c b s).0
        (call_buffer no_load db_insert c b s).1 (step-IsBalanced c b s h)
