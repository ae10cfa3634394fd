-- ===== src/Connections/Deliveries.antt =====
-- Broadcasts, heartbeats and message counts keep the counts of connections right.
use log_librarian.Prelude.{
  ◌∙◌, ℕ, ◌+◌, ◌≡◌, refl, sym, String, Bool, true, false, some, List, [], ◌∷◌, arith, map, ap,
  Option-cases, inl, inr,
}
use log_librarian.Prelude.Dict.{lookup, insert, IsUnique-insert, sum_values-insert_old}
use log_librarian.Connections.Stats.{ConnectionInfo}
use log_librarian.Connections.Manager.{Manager}
use log_librarian.Connections.Traffic.{
  sent, disconnect_client, disconnect_all, count_slow, broadcast_to_clients, failed_sockets,
  update_agent, update_heartbeat, record_message, record_slow_handler, queue_status_update,
  flush_status_updates,
}
use log_librarian.Connections.Measure.{sum_list, sum_connections, from}
use log_librarian.Connections.Counts.{IsValid}
use log_librarian.Connections.Keeping.{
  Keeps, Keeps-refl, Keeps-trans, Keeps-same, disconnect_client-Keeps,
}

-- The same connections by every measure, with the same counts.
record SameSums (m m' : Manager) : Type 0 where
  valid_agents : IsValid m → IsValid m'
  sums : (f : String → ℕ) → sum_connections f m' ≡ sum_connections f m

Keeps-SameSums : (m m' : Manager) → SameSums m m' → Keeps m m'
Keeps-SameSums m m' s = record { valid = s.valid_agents; sums = λ v f. omega (arith, s.sums f) }

update_agent-Keeps :
    (k : String) (change : ConnectionInfo → ConnectionInfo) (m : Manager)
    → ((i : ConnectionInfo) → (change i).ip_address ≡ i.ip_address)
    → Keeps m (update_agent k change m)
unfolding update_agent sum_connections
update_agent-Keeps k change m same = elim (Option-cases (lookup k m.agents)) [
  | inl absent ↦ rw (absent, update_agent) (Keeps-refl m)
  | inr (i, here) ↦
      rw (here, update_agent)
        (Keeps-SameSums m _ (record {
          valid_agents = λ v. record {
            unique_agents = IsUnique-insert k (change i) m.agents v.unique_agents;
            unique_clients = v.unique_clients;
            counted = λ ip. v.counted ip ∙ sym (sums i here (from ip));
          };
          sums = sums i here;
        }))
]
  where
    sums :
        (i : ConnectionInfo)
        → lookup k m.agents ≡ some i
        → (f : String → ℕ)
        → sum_connections f (record m { agents = insert k (change i) m.agents })
          ≡ sum_connections f m
    sums i here f = omega (
      arith,
      sum_values-insert_old (λ (j : ConnectionInfo). f j.ip_address) k (change i) i m.agents here,
      ap f (same i),
    )

pub update_heartbeat-Keeps :
    (now : ℕ) (k : String) (m : Manager) → Keeps m (update_heartbeat now k m)
unfolding update_heartbeat
update_heartbeat-Keeps now k m =
    let m' : Manager = record m { agent_heartbeats = insert k now m.agent_heartbeats } in
    Keeps-trans m m' _ (Keeps-same m m' (record { agents = refl; clients = refl; per_ip = refl }))
      (update_agent-Keeps k _ m' (λ i. refl))

pub record_message-Keeps :
    (k : String) (bytes : ℕ) (m : Manager) → Keeps m (record_message k bytes m)
unfolding record_message
record_message-Keeps k bytes m =
    let m' : Manager = record m {
      stats = record m.stats {
        total_messages_processed = m.stats.total_messages_processed + 1;
        total_bytes_received = m.stats.total_bytes_received + bytes;
      };
    } in
    Keeps-trans m m' _ (Keeps-same m m' (record { agents = refl; clients = refl; per_ip = refl }))
      (update_agent-Keeps k _ m' (λ i. refl))

count_slow-Keeps : (slow : Bool) (m : Manager) → Keeps m (count_slow slow m)
unfolding count_slow
count_slow-Keeps true m = Keeps-same m _ (record { agents = refl; clients = refl; per_ip = refl })
count_slow-Keeps false m = Keeps-refl m

pub record_slow_handler-Keeps : (k : String) (m : Manager) → Keeps m (record_slow_handler k m)
unfolding record_slow_handler
record_slow_handler-Keeps k m =
    Keeps-trans m _ _ (update_agent-Keeps k _ m (λ i. refl)) (count_slow-Keeps true _)

pub queue_status_update-Keeps :
    (k s : String) (t : ℕ) (m : Manager) → Keeps m (queue_status_update k s t m)
unfolding queue_status_update
queue_status_update-Keeps k s t m =
    Keeps-same m _ (record { agents = refl; clients = refl; per_ip = refl })

pub flush_status_updates-Keeps : (m : Manager) → Keeps m (flush_status_updates m).0
unfolding flush_status_updates
flush_status_updates-Keeps m =
    Keeps-same m _ (record { agents = refl; clients = refl; per_ip = refl })

disconnect_all-Keeps : (k : String) (ws : List ℕ) (m : Manager) → Keeps m (disconnect_all k ws m).0
unfolding disconnect_all
disconnect_all-Keeps k [] m = Keeps-refl m
disconnect_all-Keeps k (w ∷ ws) m =
    Keeps-trans m (disconnect_client k w m).0 _ (disconnect_client-Keeps k w m)
      (disconnect_all-Keeps k ws (disconnect_client k w m).0)

sum_list-sent :
    (f : String → ℕ) (works : ℕ → Bool) (size : ℕ) (is : List ConnectionInfo)
    → sum_list f (map (sent works size) is) ≡ sum_list f is
unfolding sent
sum_list-sent f works size [] = refl
sum_list-sent f works size (i ∷ is) = ground (arith, sum_list-sent f works size is)

sends-Keeps :
    (k : String) (works : ℕ → Bool) (size bytes : ℕ) (is : List ConnectionInfo) (m : Manager)
    → lookup k m.clients ≡ some is
    → Keeps m (record m {
      clients = insert k (map (sent works size) is) m.clients;
      stats = record m.stats { total_bytes_sent = bytes };
    })
unfolding sum_connections
sends-Keeps k works size bytes is m here = Keeps-SameSums m _ (record {
  valid_agents = λ v. record {
    unique_agents = v.unique_agents;
    unique_clients = IsUnique-insert k _ m.clients v.unique_clients;
    counted = λ ip. v.counted ip ∙ sym (sums (from ip));
  };
  sums = sums;
})
  where
    sums :
        (f : String → ℕ)
        → sum_connections f (record m {
          clients = insert k (map (sent works size) is) m.clients;
          stats = record m.stats { total_bytes_sent = bytes };
        })
          ≡ sum_connections f m
    sums f = omega (
      arith,
      sum_values-insert_old (sum_list f) k (map (sent works size) is) is m.clients here,
      sum_list-sent f works size is,
    )

pub broadcast-Keeps :
    (k : String) (size : ℕ) (works : ℕ → Bool) (slow : Bool) (m : Manager)
    → Keeps m (broadcast_to_clients k size works slow m).0
unfolding broadcast_to_clients
broadcast-Keeps k size works slow m = elim (Option-cases (lookup k m.clients)) [
  | inl absent ↦ rw (absent, broadcast_to_clients) (Keeps-refl m)
  | inr (is, here) ↦
      rw (here, broadcast_to_clients)
        (Keeps-trans m _ _ (sends-Keeps k works size _ is m here) (
          Keeps-trans _ _ _ (disconnect_all-Keeps k (failed_sockets works is) _)
            (count_slow-Keeps slow _)))
]
