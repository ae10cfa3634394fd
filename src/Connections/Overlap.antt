-- ===== src/Connections/Overlap.antt =====
-- Two attempts to connect that overlap: the check of `connect_agent` stands before its lock and
-- its `await`, so both checks can run before either connection is registered.
use log_librarian.Prelude.{
  Bool-cases, inl, inr, ℕ, ◌+◌, ◌<◌, ◌≡◌, ◌≢◌, ◌∙◌, refl, String, none, arith, leb, eq_iff,
}
use log_librarian.Prelude.Dict.{lookup, get_or, lookup-insert}
use log_librarian.Connections.Stats.{new_info, agent, Settings}
use log_librarian.Connections.Manager.{
  Manager, total_connections, can_accept_connection, register_agent,
}
use log_librarian.Connections.Measure.{each, total_connections-sum}
use log_librarian.Connections.Counts.{get_or-read_default, sum-register_agent}

module _ (cfg : Settings) where
  -- The manager after the checks of two attempts, and then their two registrations.
  unfoldable pub overlap : ℕ → String → ℕ → String → String → ℕ → String → Manager → Manager
  overlap now k w ip k' w' ip' m = register_agent cfg now k' w' ip' (
      register_agent cfg now k w ip
        (can_accept_connection cfg (can_accept_connection cfg m ip).0 ip').0)

  check_passes :
      (m : Manager) (ip : String)
      → total_connections m < cfg.max_total_connections
      → get_or ip m.connections_per_ip 0 < cfg.max_connections_per_ip
      → (can_accept_connection cfg m ip).1 ≡ none
  unfolding can_accept_connection
  check_passes m ip total per_ip = ground arith

  check_leaves :
      (m : Manager) (ip : String)
      → ((can_accept_connection cfg m ip).0.agents ≡ m.agents)
        × (total_connections (can_accept_connection cfg m ip).0 ≡ total_connections m)
        × ((j : String)
            → get_or j (can_accept_connection cfg m ip).0.connections_per_ip 0
              ≡ get_or j m.connections_per_ip 0)
  unfolding can_accept_connection total_connections
  check_leaves m ip = elim (Bool-cases (leb cfg.max_total_connections (total_connections m))) [
    | inl full ↦ rw full (refl, refl, λ j. refl)
    | inr room ↦ rw room (refl, refl, λ j. get_or-read_default ip j 0 m.connections_per_ip)
  ]

  -- A registration of a new agent adds a connection.
  register_new :
      (now : ℕ) (k : String) (w : ℕ) (ip : String) (m : Manager)
      → lookup k m.agents ≡ none
      → total_connections (register_agent cfg now k w ip m) ≡ total_connections m + 1
  register_new now k w ip m absent =
      let m' = register_agent cfg now k w ip m in
      omega (
        arith,
        total_connections-sum m,
        total_connections-sum m',
        rw absent at (sum-register_agent each cfg now k w ip m),
      )

  agents-register :
      (now : ℕ) (k j : String) (w : ℕ) (ip : String) (m : Manager)
      → k ≢ j
      → lookup j (register_agent cfg now k w ip m).agents ≡ lookup j m.agents
  unfolding register_agent
  agents-register now k j w ip m ne =
      ground (arith, eq_iff k j, lookup-insert k j (new_info w k ip now agent) m.agents)

  -- With one place left, and room for both addresses, two new agents whose attempts overlap both
  -- pass the check, and then there is one connection more than `MAX_TOTAL_CONNECTIONS`.
  pub overlap_exceeds_limit :
      (now : ℕ) (k k' : String) (w w' : ℕ) (ip ip' : String) (m : Manager)
      → total_connections m + 1 ≡ cfg.max_total_connections
      → get_or ip m.connections_per_ip 0 < cfg.max_connections_per_ip
      → get_or ip' m.connections_per_ip 0 < cfg.max_connections_per_ip
      → lookup k m.agents ≡ none
      → lookup k' m.agents ≡ none
      → k ≢ k'
      → ((can_accept_connection cfg m ip).1 ≡ none)
        × ((can_accept_connection cfg (can_accept_connection cfg m ip).0 ip').1 ≡ none)
        × (total_connections (overlap now k w ip k' w' ip' m) ≡ cfg.max_total_connections + 1)
  unfolding overlap
  overlap_exceeds_limit now k k' w w' ip ip' m one_left room room' new new' ne =
      let a : Manager = (can_accept_connection cfg m ip).0 in
      let b : Manager = (can_accept_connection cfg a ip').0 in
      let (agents_a, total_a, counts_a) = check_leaves m ip in
      let (agents_b, total_b, counts_b) = check_leaves a ip' in
      let c : Manager = register_agent cfg now k w ip b in
      let same = agents_b ∙ agents_a in
      let first = register_new now k w ip b (rw same new) in
      let other = agents-register now k k' w ip b ne in
      let second = register_new now k' w' ip' c (other ∙ rw same new') in
      (
        check_passes m ip (omega arith) room,
        check_passes a ip' (omega (arith, total_a)) (omega (arith, counts_a ip')),
        omega (arith, first, second, total_a, total_b),
      )
