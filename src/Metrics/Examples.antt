-- ===== src/Metrics/Examples.antt =====
-- The theorems on the metrics buffer at concrete calls, and what a run leaves.
use log_librarian.Prelude.{
  ℕ, zero, suc, ◌≡◌, refl, String, Bool, true, false, Option, none, List, [], ◌∷◌, ◌++◌, arith,
  str_eq, if◌then◌else◌,
}
use log_librarian.Prelude.Dict.{Dict, lookup, insert, get_or, sum_values, IsUnique}
use log_librarian.Metrics.Buffer.{
  Config, MetricsBuffer, Inserted, returned, raised, new_buffer, buffer_size, flush, flush_entries,
  write_all, is_small_deployment, add_agent, extend,
}
use log_librarian.Metrics.Calls.{Call, started, added, ticked, stopped, run_calls}
use log_librarian.Metrics.Contents.{get_or-extend}
use log_librarian.Metrics.Rows.{IsBalanced, calls-IsBalanced}
use log_librarian.Metrics.Storage.{IsStored, IsAccounted, flush_loses_nothing}
use log_librarian.Metrics.Duplicates.{retry_duplicates}

abbrev settings : Config
settings = record {
  max_buffer_size = 4;
  use_postgres = true;
  backpressure_warning_size = 100;
  small_deployment_threshold = 10;
}

-- A database of rows that refuses those of one agent.
abbrev insert_rows : String → List ℕ → ℕ → List ℕ → Inserted × List ℕ
insert_rows agent rows load stored =
    if str_eq agent "refused" then (raised, stored) else (returned none, stored ++ rows)

abbrev calls : List (Call ℕ ℕ)
calls =
    started
    ∷ added 1 2 "web" (11 ∷ 12 ∷ []) 5
    ∷ added 2 2 "db" (21 ∷ 22 ∷ []) 6
    ∷ added 3 2 "web" (13 ∷ []) 5
    ∷ added 4 2 "refused" (31 ∷ []) 7
    ∷ ticked 8 3
    ∷ stopped 9 4
    ∷ []

new_buffer-IsBalanced : IsBalanced (new_buffer {M = ℕ} {L = ℕ} settings)
unfolding buffer_size sum_values
new_buffer-IsBalanced = record { balance = refl }

-- The failed flushes keep the rows of both agents, though those of "web" are stored already.
calls_lem :
    (run_calls 0 insert_rows calls (new_buffer settings) []).0.buffer
    ≡ ("web", 13 ∷ []) ∷ ("refused", 31 ∷ []) ∷ []
unfolding run_calls flush buffer_size sum_values is_small_deployment add_agent insert get_or
calls_lem = refl

stored_lem :
    (run_calls 0 insert_rows calls (new_buffer settings) []).1 ≡ 11 ∷ 12 ∷ 21 ∷ 22 ∷ 13 ∷ 13 ∷ []
unfolding run_calls flush buffer_size sum_values is_small_deployment add_agent insert get_or
stored_lem = refl

calls-IsBalanced_example : IsBalanced (run_calls 0 insert_rows calls (new_buffer settings) []).0
calls-IsBalanced_example =
    calls-IsBalanced 0 insert_rows calls (new_buffer settings) [] new_buffer-IsBalanced

-- A database of the rows of each agent, which refuses an insert at load 0.
abbrev insert_agent : String → List ℕ → ℕ → Dict (List ℕ) → Inserted × Dict (List ℕ)
insert_agent k ms zero d = (raised, d)
insert_agent k ms (suc load) d = (returned none, insert k (get_or k d [] ++ ms) d)

abbrev rows_of : String → Dict (List ℕ) → List ℕ
rows_of j d = get_or j d []

insert_agent_adds :
    (k j : String) (ms : List ℕ) (load : ℕ) (d : Dict (List ℕ)) (result : Option ℕ)
    → (insert_agent k ms load d).0 ≡ returned result
    → rows_of j (insert_agent k ms load d).1
      ≡ (if str_eq k j then rows_of j d ++ ms else rows_of j d)
unfolding insert extend
insert_agent_adds k j ms zero d result e = absurd (ground (arith, e))
insert_agent_adds k j ms (suc load) d result e = get_or-extend k j ms d

insert_agent_keeps :
    (k j : String) (ms : List ℕ) (load : ℕ) (d : Dict (List ℕ))
    → (insert_agent k ms load d).0 ≡ raised
    → rows_of j (insert_agent k ms load d).1 ≡ rows_of j d
insert_agent_keeps k j ms zero d e = refl
insert_agent_keeps k j ms (suc load) d e = absurd (ground (arith, e))

insert_agent-IsStored : IsStored insert_agent rows_of
insert_agent-IsStored = record { adds = insert_agent_adds; keeps = insert_agent_keeps }

abbrev full : MetricsBuffer ℕ ℕ
full = record (new_buffer settings) {
  buffer = ("web", 13 ∷ []) ∷ ("db", 21 ∷ []) ∷ [];
  load_avg_cache = ("web", 5) ∷ ("db", 0) ∷ [];
}

full-IsUnique : IsUnique full.buffer
unfolding lookup
full-IsUnique = (refl, (refl, tt))

abbrev held : Dict (List ℕ)
held = ("web", 11 ∷ 12 ∷ []) ∷ []

flush_loses_nothing_example :
    IsAccounted
      (rows_of "web" held)
      (get_or "web" full.buffer [])
      (rows_of "web" (flush 0 insert_agent false 8 3 full held).1)
      (get_or "web" (flush 0 insert_agent false 8 3 full held).0.buffer [])
flush_loses_nothing_example =
    flush_loses_nothing 0 insert_agent rows_of insert_agent-IsStored "web" false 8 3 full held
      full-IsUnique

-- A database that is down for the first insert at load 0.
data Flaky : Type 0 where
  flaky : Bool → Dict (List ℕ) → Flaky

abbrev flaky_insert : String → List ℕ → ℕ → Flaky → Inserted × Flaky
flaky_insert k ms zero (flaky true d) = (raised, flaky false d)
flaky_insert k ms zero (flaky false d) = (returned none, flaky false (extend k ms d))
flaky_insert k ms (suc load) (flaky down d) = (returned none, flaky down (extend k ms d))

abbrev flaky_rows : String → Flaky → List ℕ
flaky_rows j (flaky down d) = get_or j d []

flaky_adds :
    (k j : String) (ms : List ℕ) (load : ℕ) (s : Flaky) (result : Option ℕ)
    → (flaky_insert k ms load s).0 ≡ returned result
    → flaky_rows j (flaky_insert k ms load s).1
      ≡ (if str_eq k j then flaky_rows j s ++ ms else flaky_rows j s)
flaky_adds k j ms zero (flaky true d) result e = absurd (ground (arith, e))
flaky_adds k j ms zero (flaky false d) result e = get_or-extend k j ms d
flaky_adds k j ms (suc load) (flaky down d) result e = get_or-extend k j ms d

flaky_keeps :
    (k j : String) (ms : List ℕ) (load : ℕ) (s : Flaky)
    → (flaky_insert k ms load s).0 ≡ raised
    → flaky_rows j (flaky_insert k ms load s).1 ≡ flaky_rows j s
flaky_keeps k j ms zero (flaky true d) e = refl
flaky_keeps k j ms zero (flaky false d) e = absurd (ground (arith, e))
flaky_keeps k j ms (suc load) (flaky down d) e = absurd (ground (arith, e))

flaky_insert-IsStored : IsStored flaky_insert flaky_rows
flaky_insert-IsStored = record { adds = flaky_adds; keeps = flaky_keeps }

abbrev failing : MetricsBuffer ℕ ℕ × Flaky
failing = flush_entries 0 flaky_insert 8 3 full (flaky true held)

first_fails : (write_all 0 flaky_insert full.buffer full.load_avg_cache (flaky true held)).0 ≡ false
unfolding write_all get_or
first_fails = refl

web_written :
    flaky_rows "web" failing.1 ≡ flaky_rows "web" (flaky true held) ++ get_or "web" full.buffer []
unfolding flush_entries get_or insert
web_written = refl

retry_works :
    (write_all 0 flaky_insert failing.0.buffer failing.0.load_avg_cache failing.1).0 ≡ true
unfolding flush_entries get_or insert
retry_works = refl

retry_duplicates_example :
    flaky_rows "web" (flush_entries 0 flaky_insert 9 2 failing.0 failing.1).1
    ≡ (flaky_rows "web" (flaky true held) ++ get_or "web" full.buffer [])
      ++ get_or "web" full.buffer []
retry_duplicates_example =
    retry_duplicates 0 flaky_insert flaky_rows flaky_insert-IsStored "web" 8 3 full failing.0
      (flaky true held) failing.1 full-IsUnique first_fails refl web_written retry_works 9 2
