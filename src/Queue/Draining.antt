-- ===== src/Queue/Draining.antt =====
-- What the consumer of librarian/redis_queue.py does with the messages of the stream.
use log_librarian.Prelude.{
  ◌∙◌, ◌≡◌, refl, ap, ℕ, zero, suc, ◌+◌, ◌*◌, ◌≤◌, String, Bool, true, Option, some, List, [], ◌∷◌,
  inl, inr, arith, Bool-cases, Option-cases, length, drop, length-drop,
}
use log_librarian.Retention.Tables.{limit}
use log_librarian.Queue.Stats.{record_consume, count_consume_errors}
use log_librarian.Queue.Broker.{Message, Redis, IsOrdered, QueueManager}
use log_librarian.Queue.Publisher.{is_connected}
use log_librarian.Queue.Consumer.{
  process_message, process_all, update_queue_depth, acknowledge, after_read, consumer_turn, consume,
}

-- The messages that a manager counted, as processed or as an error.
abbrev pub handled : QueueManager → ℕ
handled q = q.stats.messages_consumed + q.stats.consume_errors

-- The manager is as before, but for `n` messages that it counted.
abbrev Counted : ℕ → QueueManager → QueueManager → Type 0
Counted n q q' =
    (is_connected q' ≡ is_connected q)
    × (q'.batch_size ≡ q.batch_size)
    × (handled q' ≡ handled q + n)

nothing_left : {A : Type 0} (xs : List A) → length xs ≤ 0 → xs ≡ []
nothing_left [] h = refl
nothing_left (x ∷ xs) h = absurd (omega arith)

length-limit-drop :
    {A : Type 0} (n : ℕ) (xs : List A) → length (limit n xs) + length (drop n xs) ≡ length xs
unfolding limit
length-limit-drop zero xs = omega arith
length-limit-drop (suc n) [] = omega arith
length-limit-drop (suc n) (x ∷ xs) = omega (arith, length-limit-drop n xs)

module _ {J F W : Type 0} (loads : String → Option J) (parse_float : String → Option F)
    (zero_float : F) (write : Option (String → J → F → W → Bool × W)) where
  -- The messages processed one after the other, whichever of them raise.
  unfoldable pub process_each : List Message → W → W
  process_each [] w = w
  process_each ((id, fields) ∷ ms) w =
      process_each ms (process_message loads parse_float zero_float write fields w).1

  process_each-split :
      (n : ℕ) (ms : List Message) (w : W)
      → process_each (drop n ms) (process_each (limit n ms) w) ≡ process_each ms w
  unfolding process_each limit
  process_each-split zero ms w = refl
  process_each-split (suc n) [] w = refl
  process_each-split (suc n) ((id, fields) ∷ ms) w =
      process_each-split n ms (process_message loads parse_float zero_float write fields w).1

  process_all-world :
      (ms : List Message) (w : W)
      → (process_all loads parse_float zero_float write ms w).world ≡ process_each ms w
  unfolding process_all process_each
  process_all-world [] w = refl
  process_all-world ((id, fields) ∷ ms) w =
      let (done, w') = process_message loads parse_float zero_float write fields w in
      elim (Bool-cases done) [
        | inl processed ↦ rw processed (process_all-world ms w')
        | inr failed ↦ rw failed (process_all-world ms w')
      ]

  process_all-count :
      (ms : List Message) (w : W)
      → length (process_all loads parse_float zero_float write ms w).ids
          + (process_all loads parse_float zero_float write ms w).errors
        ≡ length ms
  unfolding process_all
  process_all-count [] w = refl
  process_all-count ((id, fields) ∷ ms) w =
      let (done, w') = process_message loads parse_float zero_float write fields w in
      elim (Bool-cases done) [
        | inl processed ↦ rw processed (omega (arith, process_all-count ms w'))
        | inr failed ↦ rw failed (omega (arith, process_all-count ms w'))
      ]

  module _ {R : Type 0} (redis : Redis R) (ordered : IsOrdered redis) where
    update_queue_depth-Counted :
        (r : R) (q : QueueManager)
        → Counted 0 q (update_queue_depth loads parse_float zero_float write redis r q)
    unfolding update_queue_depth is_connected
    update_queue_depth-Counted r q = elim (Option-cases (redis.xinfo_stream r)) [
      | inl none_read ↦ rw (none_read, update_queue_depth) (refl, refl, omega arith)
      | inr (n, read) ↦ rw (read, update_queue_depth) (refl, refl, omega arith)
    ]

    acknowledge_lem :
        (now latency : ℕ) (ids : List String) (q : QueueManager) (r : R)
        → (q' : QueueManager) × (r' : R) × (acknowledge loads parse_float zero_float write redis now
              latency ids q r
            ≡ some (q', r'))
          × (ordered.undelivered r' ≡ ordered.undelivered r)
          × Counted (length ids) q q'
    unfolding acknowledge record_consume is_connected
    acknowledge_lem now latency [] q r = (q, r, refl, refl, (refl, refl, omega arith))
    acknowledge_lem now latency (id ∷ ids) q r =
        let (r', e, u) = ordered.acks (id ∷ ids) r in
        (
          record q { stats = record_consume now (length (id ∷ ids)) latency q.stats },
          r',
          rw (e, acknowledge) refl,
          u,
          (refl, refl, omega arith),
        )

    after_read_lem :
        (now latency : ℕ) (ms : List Message) (q : QueueManager) (r : R) (w : W)
        → (q' : QueueManager) × (r' : R) × (after_read loads parse_float zero_float write redis now
              latency ms q r w
            ≡ (q', r', process_each ms w))
          × (ordered.undelivered r' ≡ ordered.undelivered r)
          × Counted (length ms) q q'
    unfolding after_read count_consume_errors is_connected process_each
    after_read_lem now latency [] q r w = (q, r, refl, refl, (refl, refl, omega arith))
    after_read_lem now latency (m ∷ ms) q r w =
        let p = process_all loads parse_float zero_float write (m ∷ ms) w in
        let q1 : QueueManager = record q { stats = count_consume_errors p.errors q.stats } in
        let (q2, r', e, u, c) = acknowledge_lem now latency p.ids q1 r in
        let d = update_queue_depth-Counted r' q2 in
        (
          update_queue_depth loads parse_float zero_float write redis r' q2,
          r',
          rw (e, after_read, process_all-world (m ∷ ms) w) refl,
          u,
          (d.0 ∙ c.0, d.1 ∙ c.1, omega (arith, d.2, c.2, process_all-count (m ∷ ms) w)),
        )

    consumer_turn_lem :
        (now latency : ℕ) (q : QueueManager) (r : R) (w : W)
        → is_connected q ≡ true
        → let batch = limit q.batch_size (ordered.undelivered r) in
          (q' : QueueManager) × (r' : R) × (consumer_turn loads parse_float zero_float write redis
              now latency q r w
            ≡ (q', r', process_each batch w))
          × (ordered.undelivered r' ≡ drop q.batch_size (ordered.undelivered r))
          × Counted (length batch) q q'
    unfolding consumer_turn
    consumer_turn_lem now latency q r w connected =
        let (r1, e, u) = ordered.reads q.batch_size r in
        let (q', r', f, v, c) =
          after_read_lem now latency (limit q.batch_size (ordered.undelivered r)) q r1 w in
        (q', r', rw (connected, e, consumer_turn) f, v ∙ u, c)

    -- With a Redis that answers and gives each message once, a connected consumer leaves no message
    -- undelivered after turns whose reads together have room for all of them. It processes each
    -- message once, in order, whether it raises or not, and counts it as consumed or as an error.
    pub processes_each_once :
        (times : List (ℕ × ℕ)) (q : QueueManager) (r : R) (w : W)
        → is_connected q ≡ true
        → length (ordered.undelivered r) ≤ length times * q.batch_size
        → let (q', r', w') = consume loads parse_float zero_float write redis times q r w in
          (ordered.undelivered r' ≡ [])
          × (w' ≡ process_each (ordered.undelivered r) w)
          × (handled q' ≡ handled q + length (ordered.undelivered r))
    unfolding consume process_each
    processes_each_once [] q r w connected h =
        let e = nothing_left (ordered.undelivered r) (omega arith) in rw e (refl, refl, omega arith)
    processes_each_once ((now, latency) ∷ times) q r w connected h =
        let ms = ordered.undelivered r in
        let (q', r', f, u, c) = consumer_turn_lem now latency q r w connected in
        let rest =
          processes_each_once times q' r' (process_each (limit q.batch_size ms) w) (c.0 ∙ connected)
            (rw (u, c.1) (omega (arith, length-drop q.batch_size ms))) in
        rw (f, consume)
          (
            rest.0,
            rest.1
                ∙ ap (λ l. process_each l (process_each (limit q.batch_size ms) w)) u
                ∙ process_each-split q.batch_size ms w,
            omega (arith, rest.2, c.2, ap length u, length-limit-drop q.batch_size ms),
          )
