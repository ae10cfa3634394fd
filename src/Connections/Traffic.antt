-- ===== src/Connections/Traffic.antt =====
-- The rest of `OptimizedConnectionManager`: the end of a client's connection, broadcasts,
-- heartbeats, message counts, queued status updates and timeouts.
use log_librarian.Prelude.{
  ℕ, ◌+◌, ◌*◌, String, Bool, true, ◌&&◌, Option, none, some, List, [], ◌∷◌, ◌++◌, ltb, ◌==◌, length,
  keep_if, map, if◌then◌else◌,
}
use log_librarian.Prelude.Dict.{lookup, insert, delete, get_or, contains}
use log_librarian.Connections.Stats.{Settings, ConnectionInfo}
use log_librarian.Connections.Manager.{Manager, client_count, release_ip}

-- A command sent to the agent of this name.
pub data Command : Type 0 where
  start_stream stop_stream : String → Command

-- What `connect_client` sends once it has registered the client.
unfoldable pub start_commands : String → Manager → List Command
start_commands agent_id m = if contains agent_id m.agents then start_stream agent_id ∷ [] else []

-- The first connection of the WebSocket.
unfoldable pub find_socket : ℕ → List ConnectionInfo → Option ConnectionInfo
find_socket w [] = none
find_socket w (i ∷ is) = let rest = find_socket w is in if i.websocket == w then some i else rest

-- The list without that connection.
unfoldable pub remove_socket : ℕ → List ConnectionInfo → List ConnectionInfo
remove_socket w [] = []
remove_socket w (i ∷ is) =
    let rest = remove_socket w is in if i.websocket == w then is else i ∷ rest

-- The `for` loop of `disconnect_client` over the clients of the agent.
unfoldable pub remove_client : String → ℕ → List ConnectionInfo → Manager → Manager
unfolding find_socket remove_socket release_ip
remove_client agent_id websocket watching m = elim (find_socket websocket watching) [
  | none ↦ m
  | some info ↦ record m {
    clients = insert agent_id (remove_socket websocket watching) m.clients;
    connections_per_ip = release_ip info.ip_address m.connections_per_ip;
  }
]

-- The end of `disconnect_client`: an agent that nobody watches has no entry, and is told to stop.
unfoldable pub drop_unwatched : String → Manager → Manager × List Command
drop_unwatched agent_id m =
    if length (get_or agent_id m.clients []) == 0
    then (
      record m { clients = delete agent_id m.clients },
      if contains agent_id m.agents then stop_stream agent_id ∷ [] else [],
    )
    else (m, [])

unfoldable pub count_clients : Manager → Manager
count_clients m = record m { stats = record m.stats { total_clients_connected = client_count m } }

unfoldable pub disconnect_client : String → ℕ → Manager → Manager × List Command
unfolding remove_client drop_unwatched count_clients
disconnect_client agent_id websocket m = elim (lookup agent_id m.clients) [
  | none ↦ (m, [])
  | some watching ↦
      drop_unwatched agent_id (count_clients (remove_client agent_id websocket watching m))
]

-- One send of a broadcast of `size` bytes, where `works` tells which sockets take it.
unfoldable pub sent : (ℕ → Bool) → ℕ → ConnectionInfo → ConnectionInfo
sent works size i =
    if works i.websocket
    then record i { messages_sent = i.messages_sent + 1; bytes_sent = i.bytes_sent + size }
    else i

unfoldable pub failed_sockets : (ℕ → Bool) → List ConnectionInfo → List ℕ
failed_sockets works [] = []
failed_sockets works (i ∷ is) =
    let rest = failed_sockets works is in if works i.websocket then rest else i.websocket ∷ rest

unfoldable pub disconnect_all : String → List ℕ → Manager → Manager × List Command
unfolding disconnect_client
disconnect_all agent_id [] m = (m, [])
disconnect_all agent_id (w ∷ ws) m =
    let (m', now) = disconnect_client agent_id w m in
    let (m'', later) = disconnect_all agent_id ws m' in (m'', now ++ later)

unfoldable pub count_slow : Bool → Manager → Manager
count_slow slow m =
    if slow
    then record m {
      stats = record m.stats { slow_handlers_logged = m.stats.slow_handlers_logged + 1 };
    }
    else m

-- `slow` is the test of the duration against the threshold.
unfoldable pub broadcast_to_clients :
    String → ℕ → (ℕ → Bool) → Bool → Manager → Manager × List Command
unfolding sent failed_sockets disconnect_all count_slow
broadcast_to_clients agent_id size works slow m = elim (lookup agent_id m.clients) [
  | none ↦ (m, [])
  | some watching ↦
      let delivered = length (keep_if (λ i. works i.websocket) watching) in
      let after_sends : Manager = record m {
        clients = insert agent_id (map (sent works size) watching) m.clients;
        stats = record m.stats { total_bytes_sent = m.stats.total_bytes_sent + size * delivered };
      } in
      let (m', commands) = disconnect_all agent_id (failed_sockets works watching) after_sends in
      (count_slow slow m', commands)
]

-- A change of the agent's connection, if it is connected.
unfoldable pub update_agent : String → (ConnectionInfo → ConnectionInfo) → Manager → Manager
update_agent agent_id change m = elim (lookup agent_id m.agents) [
  | none ↦ m
  | some info ↦ record m { agents = insert agent_id (change info) m.agents }
]

unfoldable pub update_heartbeat : ℕ → String → Manager → Manager
unfolding update_agent
update_heartbeat now agent_id m =
    update_agent agent_id (λ i. record i { last_activity = now })
      (record m { agent_heartbeats = insert agent_id now m.agent_heartbeats })

unfoldable pub record_message : String → ℕ → Manager → Manager
unfolding update_agent
record_message agent_id bytes m =
    let counted : Manager = record m {
      stats = record m.stats {
        total_messages_processed = m.stats.total_messages_processed + 1;
        total_bytes_received = m.stats.total_bytes_received + bytes;
      };
    } in
    update_agent agent_id
      (λ i. record i {
        messages_received = i.messages_received + 1;
        bytes_received = i.bytes_received + bytes;
      })
      counted

unfoldable pub record_slow_handler : String → Manager → Manager
unfolding update_agent count_slow
record_slow_handler agent_id m =
    count_slow true
      (update_agent agent_id (λ i. record i { slow_handlers = i.slow_handlers + 1 }) m)

unfoldable pub queue_status_update : String → String → ℕ → Manager → Manager
queue_status_update agent_id status last_seen m = record m {
  pending_status_updates = insert agent_id (status, last_seen) m.pending_status_updates;
}

-- The manager after the flush, and the number of updates. `_bulk_update_statuses` of this module
-- counts them and writes nothing.
unfoldable pub flush_status_updates : Manager → Manager × ℕ
flush_status_updates m = (record m { pending_status_updates = [] }, length m.pending_status_updates)

-- `get_timed_out_agents`
unfoldable pub get_timed_out_agents : Settings → ℕ → Manager → List String
get_timed_out_agents cfg now m =
    map (λ h. h.0)
      (keep_if (λ h. ltb (h.1 + cfg.agent_timeout_seconds) now && contains h.0 m.agents)
        m.agent_heartbeats)
