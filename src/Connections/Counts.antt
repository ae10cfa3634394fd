-- ===== src/Connections/Counts.antt =====
-- The counts per address, against the connections from that address.
use log_librarian.Prelude.{
  ◌∙◌, ℕ, ◌+◌, ◌-◌, ◌≤◌, ◌≡◌, String, Option, none, some, List, [], ◌∷◌, ◌++◌, arith, if◌then◌else◌,
  str_eq, eq_iff, ap, Bool-cases, Option-cases, inl, inr,
}
use log_librarian.Prelude.Dict.{
  Dict, lookup, get_or, IsUnique, IsUnique-insert, get_or-insert, get_or-delete, sum_values-insert,
  sum_values-drop, weight, weight-le-sum_values,
}
use log_librarian.Connections.Stats.{Settings, ConnectionInfo, new_info, agent, client}
use log_librarian.Connections.Manager.{
  Manager, read_default, add_ip, take_ip, release_ip, drop_old, register_agent, disconnect_agent,
  register_client,
}
use log_librarian.Connections.Measure.{sum_list, sum_connections, from, sum_list-append}

-- No key twice, and every count is the number of the connections from its address.
pub record IsValid (m : Manager) : Type 0 where
  pub unique_agents : IsUnique m.agents
  pub unique_clients : IsUnique m.clients
  pub counted : (ip : String) → get_or ip m.connections_per_ip 0 ≡ sum_connections (from ip) m

at_same :
    {V : Type 0} (k j : String) (v : V) (d : Dict V)
    → (if str_eq k j then get_or k d v else get_or j d v) ≡ get_or j d v
at_same k j v d = elim (Bool-cases (str_eq k j)) [
  | inl same ↦ rw same (ap (λ i. get_or i d v) ((eq_iff k j).0 same))
  | inr other ↦ rw other
]

pub get_or-read_default :
    {V : Type 0} (k j : String) (v : V) (d : Dict V)
    → get_or j (read_default k v d) v ≡ get_or j d v
unfolding read_default
get_or-read_default k j v d = get_or-insert k j (get_or k d v) v d ∙ at_same k j v d

module _ (a j : String) (d : Dict ℕ) where
  pub get_or-add_ip : get_or j (add_ip a d) 0 ≡ get_or j d 0 + from j a
  unfolding add_ip
  get_or-add_ip = ground (arith, get_or-insert a j (get_or a d 0 + 1) 0 d, at_same a j 0 d)

  pub get_or-take_ip : get_or j (take_ip a d) 0 ≡ get_or j d 0 - from j a
  unfolding take_ip
  get_or-take_ip = ground (arith, get_or-insert a j (get_or a d 0 - 1) 0 d, at_same a j 0 d)

  pub get_or-release_ip : get_or j (release_ip a d) 0 ≡ get_or j d 0 - from j a
  unfolding release_ip
  get_or-release_ip =
      ground (arith, get_or-take_ip, get_or-delete a j 0 (take_ip a d), at_same a j 0 d)

pub get_or-drop_old :
    (o : Option ConnectionInfo) (j : String) (d : Dict ℕ)
    → get_or j (drop_old o d) 0 ≡ get_or j d 0 - weight (λ i. from j i.ip_address) o
unfolding drop_old
get_or-drop_old none j d = omega arith
get_or-drop_old (some i) j d = get_or-take_ip i.ip_address j d

-- The sums over the connections, by operation.
module _ (f : String → ℕ) where
  pub sum-register_agent :
      (cfg : Settings) (now : ℕ) (k : String) (w : ℕ) (ip : String) (m : Manager)
      → sum_connections f (register_agent cfg now k w ip m)
          + weight (λ i. f i.ip_address) (lookup k m.agents)
        ≡ sum_connections f m + f ip
  unfolding sum_connections register_agent
  sum-register_agent cfg now k w ip m = omega (
    arith,
    sum_values-insert (λ (i : ConnectionInfo). f i.ip_address) k (new_info w k ip now agent)
        m.agents,
  )

  pub sum-disconnect_agent :
      (k : String) (m : Manager)
      → IsUnique m.agents
      → sum_connections f (disconnect_agent k m) + weight (λ i. f i.ip_address) (lookup k m.agents)
        ≡ sum_connections f m
  unfolding sum_connections disconnect_agent
  sum-disconnect_agent k m u =
      ground (arith, sum_values-drop (λ (i : ConnectionInfo). f i.ip_address) k m.agents u)

  pub weight-get_or :
      (k : String) (d : Dict (List ConnectionInfo))
      → weight (sum_list f) (lookup k d) ≡ sum_list f (get_or k d [])
  unfolding get_or
  weight-get_or k d = elim (Option-cases (lookup k d)) [
    | inl e ↦ rw (e, get_or)
    | inr (is, e) ↦ rw (e, get_or)
  ]

  pub sum-register_client :
      (cfg : Settings) (now : ℕ) (k : String) (w : ℕ) (ip : String) (m : Manager)
      → sum_connections f (register_client cfg now k w ip m) ≡ sum_connections f m + f ip
  unfolding sum_connections register_client
  sum-register_client cfg now k w ip m =
      let i = new_info w k ip now client in
      let old = get_or k m.clients [] in
      omega (
        arith,
        sum_values-insert (sum_list f) k (old ++ i ∷ []) m.clients,
        weight-get_or k m.clients,
        sum_list-append f old (i ∷ []),
      )

pub register_agent-IsValid :
    (cfg : Settings) (now : ℕ) (k : String) (w : ℕ) (ip : String) (m : Manager)
    → IsValid m
    → IsValid (register_agent cfg now k w ip m)
register_agent-IsValid cfg now k w ip m v = record {
  unique_agents = unfold register_agent in IsUnique-insert k _ m.agents v.unique_agents;
  unique_clients = unfold register_agent in v.unique_clients;
  counted = λ j.
      omega (arith, after j, sum-register_agent (from j) cfg now k w ip m, v.counted j, small j);
}
  where
    old : Dict ℕ
    old = drop_old (lookup k m.agents) m.connections_per_ip

    small :
        (j : String)
        → weight (λ (i : ConnectionInfo). from j i.ip_address) (lookup k m.agents)
          ≤ sum_connections (from j) m
    small j =
        unfold sum_connections in
        omega (arith, weight-le-sum_values (λ (i : ConnectionInfo). from j i.ip_address) k m.agents)

    after :
        (j : String)
        → get_or j (register_agent cfg now k w ip m).connections_per_ip 0
          ≡ get_or j m.connections_per_ip 0
            - weight (λ (i : ConnectionInfo). from j i.ip_address) (lookup k m.agents)
            + from j ip
    after j =
        unfold register_agent in
        omega (
          arith,
          get_or-add_ip ip j old,
          get_or-drop_old (lookup k m.agents) j m.connections_per_ip,
        )

pub register_client-IsValid :
    (cfg : Settings) (now : ℕ) (k : String) (w : ℕ) (ip : String) (m : Manager)
    → IsValid m
    → IsValid (register_client cfg now k w ip m)
register_client-IsValid cfg now k w ip m v = record {
  unique_agents = unfold register_client in v.unique_agents;
  unique_clients = unfold register_client in IsUnique-insert k _ m.clients v.unique_clients;
  counted = λ j. omega (arith, after j, sum-register_client (from j) cfg now k w ip m, v.counted j);
}
  where
    after :
        (j : String)
        → get_or j (register_client cfg now k w ip m).connections_per_ip 0
          ≡ get_or j m.connections_per_ip 0 + from j ip
    after j = unfold register_client in get_or-add_ip ip j m.connections_per_ip
