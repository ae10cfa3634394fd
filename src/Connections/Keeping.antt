-- ===== src/Connections/Keeping.antt =====
-- What the operations that open no connection do to the counts.
use log_librarian.Prelude.{
  ◌∙◌, ℕ, ◌+◌, ◌≤◌, ◌≡◌, refl, sym, String, some, List, [], ◌∷◌, arith, length, ◌==◌, ap,
  Bool-cases, Option-cases, inl, inr,
}
use log_librarian.Prelude.Dict.{
  sum_values-delete, sum_values-insert_old, lookup, delete, get_or, IsUnique, IsUnique-insert,
  IsUnique-delete, sum_values-drop,
}
use log_librarian.Connections.Stats.{ConnectionInfo}
use log_librarian.Connections.Manager.{Manager, release_ip, disconnect_agent}
use log_librarian.Connections.Traffic.{
  find_socket, remove_socket, remove_client, drop_unwatched, count_clients, disconnect_client,
}
use log_librarian.Connections.Measure.{sum_list, sum_connections, from}
use log_librarian.Connections.Counts.{IsValid, get_or-release_ip, weight-get_or}

-- From a valid manager `m`, `m'` is valid and holds no more connections, by any measure.
pub record Keeps (m m' : Manager) : Type 0 where
  pub valid : IsValid m → IsValid m'
  pub sums : IsValid m → (f : String → ℕ) → sum_connections f m' ≤ sum_connections f m

pub Keeps-refl : (m : Manager) → Keeps m m
Keeps-refl m = record { valid = λ v. v; sums = λ v f. omega arith }

pub Keeps-trans : (a b c : Manager) → Keeps a b → Keeps b c → Keeps a c
Keeps-trans a b c h k = record {
  valid = λ v. k.valid (h.valid v);
  sums = λ v f. omega (arith, h.sums v f, k.sums (h.valid v) f);
}

-- Only fields that hold no connection differ.
pub record SameConnections (m m' : Manager) : Type 0 where
  pub agents : m'.agents ≡ m.agents
  pub clients : m'.clients ≡ m.clients
  pub per_ip : m'.connections_per_ip ≡ m.connections_per_ip

pub Keeps-same : (m m' : Manager) → SameConnections m m' → Keeps m m'
unfolding sum_connections
Keeps-same m m' s = record {
  valid = λ v. record {
    unique_agents = rw s.agents v.unique_agents;
    unique_clients = rw s.clients v.unique_clients;
    counted = λ ip. rw (s.per_ip) (v.counted ip ∙ sym (sums_agree (from ip)));
  };
  sums = λ v f. omega (arith, sums_agree f);
}
  where
    sums_agree : (f : String → ℕ) → sum_connections f m' ≡ sum_connections f m
    sums_agree f = rw (s.agents, s.clients) refl

-- One connection from `address` is gone, and its count released.
pub record ClosesOne (m m' : Manager) (address : String) : Type 0 where
  pub unique_agents : IsUnique m'.agents
  pub unique_clients : IsUnique m'.clients
  pub sums : (f : String → ℕ) → sum_connections f m' + f address ≡ sum_connections f m
  pub per_ip : m'.connections_per_ip ≡ release_ip address m.connections_per_ip

pub Keeps-ClosesOne :
    (m m' : Manager) (address : String) → (IsValid m → ClosesOne m m' address) → Keeps m m'
Keeps-ClosesOne m m' address closes = record {
  valid = λ v.
      let c = closes v in
      record {
        unique_agents = c.unique_agents;
        unique_clients = c.unique_clients;
        counted = λ ip.
            ap (λ d. get_or ip d 0) c.per_ip
            ∙ omega (
              arith,
              get_or-release_ip address ip m.connections_per_ip,
              v.counted ip,
              c.sums (from ip),
            );
      };
  sums = λ v f. omega (arith, (closes v).sums f);
}

pub disconnect_agent-Keeps : (k : String) (m : Manager) → Keeps m (disconnect_agent k m)
unfolding disconnect_agent sum_connections
disconnect_agent-Keeps k m = elim (Option-cases (lookup k m.agents)) [
  | inl absent ↦ rw (absent, disconnect_agent) (Keeps-refl m)
  | inr (i, here) ↦
      rw (here, disconnect_agent)
        (Keeps-ClosesOne m _ i.ip_address (λ v. record {
          unique_agents = IsUnique-delete k m.agents v.unique_agents;
          unique_clients = v.unique_clients;
          sums = λ f. omega (
            arith,
            sum_values-delete (λ (j : ConnectionInfo). f j.ip_address) k i m.agents v.unique_agents
                here,
          );
          per_ip = refl;
        }))
]

sum_list-remove_socket :
    (f : String → ℕ) (w : ℕ) (is : List ConnectionInfo) (i : ConnectionInfo)
    → find_socket w is ≡ some i
    → sum_list f (remove_socket w is) + f i.ip_address ≡ sum_list f is
unfolding find_socket remove_socket
sum_list-remove_socket f w [] i h = absurd (ground arith)
sum_list-remove_socket f w (j ∷ is) i h = ground (arith, sum_list-remove_socket f w is i)

remove_client-Keeps :
    (k : String) (w : ℕ) (is : List ConnectionInfo) (m : Manager)
    → lookup k m.clients ≡ some is
    → Keeps m (remove_client k w is m)
unfolding remove_client sum_connections
remove_client-Keeps k w is m watching = elim (Option-cases (find_socket w is)) [
  | inl absent ↦ rw (absent, remove_client) (Keeps-refl m)
  | inr (i, here) ↦
      rw (here, remove_client)
        (Keeps-ClosesOne m _ i.ip_address (λ v. record {
          unique_agents = v.unique_agents;
          unique_clients = IsUnique-insert k _ m.clients v.unique_clients;
          sums = λ f. omega (
            arith,
            sum_values-insert_old (sum_list f) k (remove_socket w is) is m.clients watching,
            sum_list-remove_socket f w is i here,
          );
          per_ip = refl;
        }))
]

sum_list-empty : (f : String → ℕ) (is : List ConnectionInfo) → length is ≡ 0 → sum_list f is ≡ 0
sum_list-empty f [] h = refl
sum_list-empty f (i ∷ is) h = absurd (omega arith)

-- Dropping the entry of an agent that nobody watches drops no connection.
delete_unwatched-Keeps :
    (k : String) (m : Manager)
    → length (get_or k m.clients []) ≡ 0
    → Keeps m (record m { clients = delete k m.clients })
unfolding sum_connections
delete_unwatched-Keeps k m empty = record {
  valid = λ v. record {
    unique_agents = v.unique_agents;
    unique_clients = IsUnique-delete k m.clients v.unique_clients;
    counted = λ ip. v.counted ip ∙ sym (same v (from ip));
  };
  sums = λ v f. omega (arith, same v f);
}
  where
    same :
        IsValid m
        → (f : String → ℕ)
        → sum_connections f (record m { clients = delete k m.clients }) ≡ sum_connections f m
    same v f = omega (
      arith,
      sum_values-drop (sum_list f) k m.clients v.unique_clients,
      weight-get_or f k m.clients,
      sum_list-empty f (get_or k m.clients []) empty,
    )

drop_unwatched-Keeps : (k : String) (m : Manager) → Keeps m (drop_unwatched k m).0
unfolding drop_unwatched
drop_unwatched-Keeps k m = elim (Bool-cases (length (get_or k m.clients []) == 0)) [
  | inl empty ↦ rw empty (delete_unwatched-Keeps k m (ground arith))
  | inr watched ↦ rw watched (Keeps-refl m)
]

count_clients-Keeps : (m : Manager) → Keeps m (count_clients m)
unfolding count_clients
count_clients-Keeps m = Keeps-same m _ (record { agents = refl; clients = refl; per_ip = refl })

pub disconnect_client-Keeps :
    (k : String) (w : ℕ) (m : Manager) → Keeps m (disconnect_client k w m).0
unfolding disconnect_client
disconnect_client-Keeps k w m = elim (Option-cases (lookup k m.clients)) [
  | inl absent ↦ rw (absent, disconnect_client) (Keeps-refl m)
  | inr (is, here) ↦
      rw (here, disconnect_client)
        (let m' : Manager = remove_client k w is m in
          Keeps-trans m m' _ (remove_client-Keeps k w is m here) (
            Keeps-trans m' (count_clients m') _ (count_clients-Keeps m')
              (drop_unwatched-Keeps k (count_clients m'))))
]
