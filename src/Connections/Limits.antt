-- ===== src/Connections/Limits.antt =====
-- The limits on connections, over operations that run one at a time.
use log_librarian.Prelude.{
  ◌∙◌, ℕ, ◌+◌, ◌<◌, ◌≤◌, ◌≡◌, refl, sym, String, Option, none, some, List, [], ◌∷◌, arith, leb,
  if◌then◌else◌, Bool-cases, inl, inr, str_eq, eq_iff, length,
}
use mathlib.Core.Path.{subst}
use log_librarian.Prelude.Dict.{sum_values, get_or, IsUnique-insert, sum_values-insert}
use log_librarian.Connections.Stats.{Settings}
use log_librarian.Connections.Manager.{
  Manager, Rejection, new_manager, read_default, total_connections, can_accept_connection, reject,
  register_agent, after_check, connect_agent, register_client, connect_client,
}
use log_librarian.Connections.Measure.{sum_list, sum_connections, from, each, total_connections-sum}
use log_librarian.Connections.Runs.{
  Op, connect_agent_op, connect_client_op, disconnect_agent_op, disconnect_client_op, broadcast_op,
  heartbeat_op, message_op, slow_handler_op, queue_status_op, flush_op, step, run,
}
use log_librarian.Connections.Counts.{
  register_agent-IsValid, register_client-IsValid, IsValid, get_or-read_default, sum-register_agent,
  sum-register_client, weight-get_or,
}
use log_librarian.Connections.Keeping.{
  Keeps, Keeps-refl, Keeps-trans, Keeps-same, disconnect_agent-Keeps, disconnect_client-Keeps,
}
use log_librarian.Connections.Deliveries.{
  update_heartbeat-Keeps, record_message-Keeps, record_slow_handler-Keeps,
  queue_status_update-Keeps, flush_status_updates-Keeps, broadcast-Keeps,
}

-- Valid, and within the limits.
pub record IsSafe (cfg : Settings) (m : Manager) : Type 0 where
  pub valid : IsValid m
  pub total : sum_connections each m ≤ cfg.max_total_connections
  pub per_ip : (ip : String) → sum_connections (from ip) m ≤ cfg.max_connections_per_ip

module _ (cfg : Settings) where
  Keeps-IsSafe : (m m' : Manager) → Keeps m m' → IsSafe cfg m → IsSafe cfg m'
  Keeps-IsSafe m m' k s = record {
    valid = k.valid s.valid;
    total = omega (arith, s.total, k.sums s.valid each);
    per_ip = λ ip. omega (arith, s.per_ip ip, k.sums s.valid (from ip));
  }

  reject-Keeps : (now : ℕ) (r : Rejection) (m : Manager) → Keeps m (reject cfg now r m)
  unfolding reject
  reject-Keeps now r m = Keeps-same m _ (record { agents = refl; clients = refl; per_ip = refl })

  -- A read of the counts leaves every count as it was.
  read_ip-Keeps :
      (ip : String) (m : Manager)
      → Keeps m (record m { connections_per_ip = read_default ip 0 m.connections_per_ip })
  unfolding sum_connections
  read_ip-Keeps ip m = record {
    valid = λ v. record {
      unique_agents = v.unique_agents;
      unique_clients = v.unique_clients;
      counted = λ j. get_or-read_default ip j 0 m.connections_per_ip ∙ v.counted j;
    };
    sums = λ v f. omega arith;
  }

  read_clients-Keeps :
      (k : String) (m : Manager) → Keeps m (record m { clients = read_default k [] m.clients })
  unfolding sum_connections read_default
  read_clients-Keeps k m = record {
    valid = λ v. record {
      unique_agents = v.unique_agents;
      unique_clients = IsUnique-insert k _ m.clients v.unique_clients;
      counted = λ ip. v.counted ip ∙ sym (same (from ip));
    };
    sums = λ v f. omega (arith, same f);
  }
    where
      same :
          (f : String → ℕ)
          → sum_connections f (record m { clients = read_default k [] m.clients })
            ≡ sum_connections f m
      same f = omega (
        arith,
        sum_values-insert (sum_list f) k (get_or k m.clients []) m.clients,
        weight-get_or f k m.clients,
      )

  -- A connection from `ip` has room.
  record HasRoom (m : Manager) (ip : String) : Type 0 where
    total_room : sum_connections each m < cfg.max_total_connections
    ip_room : sum_connections (from ip) m < cfg.max_connections_per_ip

  HasRoom-Keeps :
      (m m' : Manager) (ip : String) → Keeps m m' → IsValid m → HasRoom m ip → HasRoom m' ip
  HasRoom-Keeps m m' ip k v r = record {
    total_room = omega (arith, r.total_room, k.sums v each);
    ip_room = omega (arith, r.ip_room, k.sums v (from ip));
  }

  -- One more connection from `ip` where there was room.
  grown :
      (m m' : Manager) (ip : String)
      → IsSafe cfg m
      → HasRoom m ip
      → IsValid m'
      → ((f : String → ℕ) → sum_connections f m' ≤ sum_connections f m + f ip)
      → IsSafe cfg m'
  grown m m' ip s r v sums = record {
    valid = v;
    total = omega (arith, r.total_room, sums each);
    per_ip = λ j. elim (Bool-cases (str_eq ip j)) [
      | inl same ↦
          let p : ip ≡ j = (eq_iff ip j).0 same in
          ground (
            arith,
            subst (λ i. sum_connections (from i) m < cfg.max_connections_per_ip) p r.ip_room,
            sums (from j),
          )
      | inr other ↦ ground (arith, s.per_ip j, sums (from j))
    ];
  }

  register_agent-IsSafe :
      (now : ℕ) (k : String) (w : ℕ) (ip : String) (m : Manager)
      → IsSafe cfg m
      → HasRoom m ip
      → IsSafe cfg (register_agent cfg now k w ip m)
  register_agent-IsSafe now k w ip m s r =
      grown m _ ip s r (register_agent-IsValid cfg now k w ip m s.valid)
        (λ f. omega (arith, sum-register_agent f cfg now k w ip m))

  register_client-IsSafe :
      (now : ℕ) (k : String) (w : ℕ) (ip : String) (m : Manager)
      → IsSafe cfg m
      → HasRoom m ip
      → IsSafe cfg (register_client cfg now k w ip m)
  register_client-IsSafe now k w ip m s r =
      grown m _ ip s r (register_client-IsValid cfg now k w ip m s.valid)
        (λ f. omega (arith, sum-register_client f cfg now k w ip m))

  -- What a passed check says.
  check-HasRoom :
      (m : Manager) (ip : String)
      → IsValid m
      → (can_accept_connection cfg m ip).1 ≡ none
      → HasRoom m ip
  unfolding can_accept_connection
  check-HasRoom m ip v h = record {
    total_room = ground (arith, total_connections-sum m);
    ip_room = ground (arith, v.counted ip);
  }

  check-Keeps : (m : Manager) (ip : String) → Keeps m (can_accept_connection cfg m ip).0
  unfolding can_accept_connection
  check-Keeps m ip = elim (Bool-cases (leb cfg.max_total_connections (total_connections m))) [
    | inl full ↦ rw full (Keeps-refl m)
    | inr room ↦ rw room (read_ip-Keeps ip m)
  ]

  -- A connection attempt is safe if what follows its check is, where the check passes.
  after_check-IsSafe :
      (now : ℕ) (checked : Manager × Option Rejection)
      (go_on : Manager → Manager × Option Rejection)
      → IsSafe cfg checked.0
      → (checked.1 ≡ none → IsSafe cfg (go_on checked.0).0)
      → IsSafe cfg (after_check cfg now checked go_on).0
  unfolding after_check
  after_check-IsSafe now (m, some r) go_on s next = Keeps-IsSafe m _ (reject-Keeps now r m) s
  after_check-IsSafe now (m, none) go_on s next = next refl

  connect_agent-IsSafe :
      (now : ℕ) (k : String) (w : ℕ) (ip : String) (m : Manager)
      → IsSafe cfg m
      → IsSafe cfg (connect_agent cfg now k w ip m).0
  connect_agent-IsSafe now k w ip m s =
      unfold connect_agent in
      let m' : Manager = (can_accept_connection cfg m ip).0 in
      let s' : IsSafe cfg m' = Keeps-IsSafe m m' (check-Keeps m ip) s in
      after_check-IsSafe now (can_accept_connection cfg m ip) _ s' (λ passed.
        register_agent-IsSafe now k w ip m' s'
          (HasRoom-Keeps m m' ip (check-Keeps m ip) s.valid (check-HasRoom m ip s.valid passed)))

  connect_client-IsSafe :
      (now : ℕ) (k : String) (w : ℕ) (ip : String) (m : Manager)
      → IsSafe cfg m
      → IsSafe cfg (connect_client cfg now k w ip m).0
  connect_client-IsSafe now k w ip m s =
      unfold connect_client in
      let m' : Manager = (can_accept_connection cfg m ip).0 in
      let s' : IsSafe cfg m' = Keeps-IsSafe m m' (check-Keeps m ip) s in
      let m'' : Manager = record m' { clients = read_default k [] m'.clients } in
      let s'' : IsSafe cfg m'' = Keeps-IsSafe m' m'' (read_clients-Keeps k m') s' in
      let reads : Keeps m m'' = Keeps-trans m m' m'' (check-Keeps m ip) (read_clients-Keeps k m') in
      after_check-IsSafe now (can_accept_connection cfg m ip) _ s' (λ passed.
        after_check-IsSafe now
          (
            m'',
            if leb cfg.max_ui_clients_per_agent (length (get_or k m'.clients []))
                then some ("agent_client_limit", 5)
                else none,
          )
          _ s''
          (λ _.
            register_client-IsSafe now k w ip m'' s''
              (HasRoom-Keeps m m'' ip reads s.valid (check-HasRoom m ip s.valid passed))))

  step-IsSafe : (m : Manager) (op : Op) → IsSafe cfg m → IsSafe cfg (step cfg m op)
  step-IsSafe m (connect_agent_op now k w ip) s = unfold step in connect_agent-IsSafe now k w ip m s
  step-IsSafe m (connect_client_op now k w ip) s =
      unfold step in connect_client-IsSafe now k w ip m s
  step-IsSafe m (disconnect_agent_op k) s =
      unfold step in Keeps-IsSafe m _ (disconnect_agent-Keeps k m) s
  step-IsSafe m (disconnect_client_op k w) s =
      unfold step in Keeps-IsSafe m _ (disconnect_client-Keeps k w m) s
  step-IsSafe m (broadcast_op k n works slow) s =
      unfold step in Keeps-IsSafe m _ (broadcast-Keeps k n works slow m) s
  step-IsSafe m (heartbeat_op now k) s =
      unfold step in Keeps-IsSafe m _ (update_heartbeat-Keeps now k m) s
  step-IsSafe m (message_op k bytes) s =
      unfold step in Keeps-IsSafe m _ (record_message-Keeps k bytes m) s
  step-IsSafe m (slow_handler_op k) s =
      unfold step in Keeps-IsSafe m _ (record_slow_handler-Keeps k m) s
  step-IsSafe m (queue_status_op k t n) s =
      unfold step in Keeps-IsSafe m _ (queue_status_update-Keeps k t n m) s
  step-IsSafe m flush_op s = unfold step in Keeps-IsSafe m _ (flush_status_updates-Keeps m) s

  -- If a manager is valid (no key twice; the count of every address is the number of the connections
  -- of agents and clients from it) and holds no more connections than the limits in total and per
  -- address, so is it after any sequence of calls of its methods that run one at a time.
  pub run-IsSafe : (m : Manager) (ops : List Op) → IsSafe cfg m → IsSafe cfg (run cfg m ops)
  unfolding run
  run-IsSafe m [] s = s
  run-IsSafe m (op ∷ ops) s = run-IsSafe (step cfg m op) ops (step-IsSafe m op s)

  pub new_manager-IsSafe : IsSafe cfg new_manager
  new_manager-IsSafe =
      unfold sum_connections sum_values get_or in
      record {
        valid = record { unique_agents = tt; unique_clients = tt; counted = λ ip. refl };
        total = omega arith;
        per_ip = λ ip. omega arith;
      }
