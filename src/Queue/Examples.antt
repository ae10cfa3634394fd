-- ===== src/Queue/Examples.antt =====
-- The theorem on the Redis queue at a concrete input, and runs of its operations.
use log_librarian.Prelude.{
  ◌≡◌, refl, ℕ, ◌+◌, String, Bool, true, false, Option, none, some, List, [], ◌∷◌, arith, length,
  drop, str_eq, if◌then◌else◌,
}
use log_librarian.Prelude.Dict.{lookup, get_or}
use log_librarian.Retention.Tables.{limit}
use log_librarian.Queue.Broker.{Message, Redis, IsOrdered, QueueManager, new_queue}
use log_librarian.Queue.Publisher.{is_connected}
use log_librarian.Queue.Consumer.{process_message, consume}
use log_librarian.Queue.Draining.{handled, process_each, processes_each_once}

-- A Redis whose state is the list of the messages that it has not delivered.
abbrev redis : Redis (List Message)
redis = record {
  xadd = λ n fields r. none;
  xreadgroup = λ n r. some (limit n r, drop n r);
  xack = λ ids r. some r;
  xinfo_stream = λ r. some (length r);
  ping = λ r. false;
  connect = λ r. (true, true, r);
}

abbrev ordered : IsOrdered redis
ordered = record {
  undelivered = λ r. r;
  reads = λ n r. (drop n r, refl, refl);
  acks = λ ids r. (r, refl, refl);
}

-- JSON is a text, which raises if it is empty, and a float is not read.
abbrev loads : String → Option String
loads text = if str_eq text "" then none else some text

abbrev write : Option (String → String → ℕ → List String → Bool × List String)
write = some (λ agent_id metrics load_avg w. (true, agent_id ∷ w))

abbrev stream : List Message
stream =
    ("1-0", ("agent_id", "web-1") ∷ ("metrics", "[]") ∷ [])
    ∷ ("2-0", ("agent_id", "web-2") ∷ ("metrics", "") ∷ [])
    ∷ ("3-0", ("agent_id", "web-3") ∷ ("metrics", "[]") ∷ [])
    ∷ []

abbrev queue : QueueManager
queue = record (new_queue 2 1000) { has_redis = true; connected = true }

processes_each_once_example :
    let (q', r', w') =
      consume loads (λ text. some 0) 0 write redis ((5, 1) ∷ (6, 1) ∷ []) queue stream [] in
    (r' ≡ [])
    × (w' ≡ process_each loads (λ text. some 0) 0 write stream [])
    × (handled q' ≡ handled queue + length stream)
unfolding is_connected
processes_each_once_example =
    processes_each_once loads (λ text. some 0) 0 write redis ordered ((5, 1) ∷ (6, 1) ∷ []) queue
      stream [] refl (omega arith)

-- The second message raises, and is not processed again.
second_fails : process_each loads (λ text. some 0) 0 write stream [] ≡ "web-3" ∷ "web-1" ∷ []
unfolding process_each process_message lookup get_or
second_fails = refl
