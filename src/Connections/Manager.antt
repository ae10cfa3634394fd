-- ===== src/Connections/Manager.antt =====
-- `OptimizedConnectionManager` of librarian/connection_manager.py. A coroutine runs here without
-- the others; its parts around an `await` are functions of their own. What the sockets do is an
-- argument: which sends fail. The commands that go out to an agent are results.
use log_librarian.Prelude.{
  ℕ, ◌+◌, ◌-◌, String, Option, none, some, List, [], ◌∷◌, ◌++◌, ltb, leb, length, if◌then◌else◌,
}
use log_librarian.Prelude.Dict.{Dict, lookup, insert, delete, get_or, sum_values}
use log_librarian.Connections.Stats.{
  Settings, ConnectionInfo, new_info, agent, client, ConnectionStats, no_stats, record_connection,
  record_rejection,
}

pub record Manager : Type 0 where
  pub agents : Dict ConnectionInfo
  pub clients : Dict (List ConnectionInfo)
  pub connections_per_ip : Dict ℕ
  pub agent_heartbeats : Dict ℕ
  pub stats : ConnectionStats
  pub pending_status_updates : Dict (String × ℕ)

-- `__init__`
abbrev pub new_manager : Manager
new_manager = record {
  agents = [];
  clients = [];
  connections_per_ip = [];
  agent_heartbeats = [];
  stats = no_stats;
  pending_status_updates = [];
}

unfoldable pub agent_count : Manager → ℕ
agent_count m = sum_values (λ _. 1) m.agents

unfoldable pub client_count : Manager → ℕ
client_count m = sum_values length m.clients

unfoldable pub total_connections : Manager → ℕ
unfolding agent_count client_count
total_connections m = agent_count m + client_count m

-- Why a connection is refused, and after how many seconds to try again.
abbrev pub Rejection : Type 0
Rejection = String × ℕ

-- A read of a `defaultdict` adds the key with the default.
unfoldable pub read_default : {V : Type 0} → String → V → Dict V → Dict V
read_default k v d = insert k (get_or k d v) d

unfoldable pub can_accept_connection : Settings → Manager → String → Manager × Option Rejection
unfolding read_default
can_accept_connection cfg m ip =
    if leb cfg.max_total_connections (total_connections m) then (m, some ("total_limit", 30)) else (
      record m { connections_per_ip = read_default ip 0 m.connections_per_ip },
      if leb cfg.max_connections_per_ip (get_or ip m.connections_per_ip 0)
          then some ("ip_limit", 10)
          else none,
    )

unfoldable pub reject : Settings → ℕ → Rejection → Manager → Manager
reject cfg now r m = record m {
  stats = record_rejection cfg.connection_stats_window_seconds now r.0 m.stats;
}

-- `self._connections_per_ip[ip] += 1`, and `-= 1` of a count that is positive.
unfoldable pub add_ip : String → Dict ℕ → Dict ℕ
add_ip ip d = insert ip (get_or ip d 0 + 1) d

unfoldable pub take_ip : String → Dict ℕ → Dict ℕ
take_ip ip d = insert ip (get_or ip d 0 - 1) d

-- The count goes down, and its entry goes when it is not positive.
unfoldable pub release_ip : String → Dict ℕ → Dict ℕ
unfolding take_ip
release_ip ip d = if leb (get_or ip d 0 - 1) 0 then delete ip (take_ip ip d) else take_ip ip d

unfoldable pub update_peak : ℕ → ConnectionStats → ConnectionStats
update_peak total s =
    if ltb s.peak_connections total then record s { peak_connections = total } else s

-- The count of an agent's earlier connection goes down when the agent connects again.
unfoldable pub drop_old : Option ConnectionInfo → Dict ℕ → Dict ℕ
unfolding take_ip
drop_old none d = d
drop_old (some old) d = take_ip old.ip_address d

-- The part of `connect_agent` behind the accept of the WebSocket.
unfoldable pub register_agent : Settings → ℕ → String → ℕ → String → Manager → Manager
unfolding drop_old add_ip update_peak
register_agent cfg now agent_id websocket ip m =
    let registered : Manager = record m {
      agents = insert agent_id (new_info websocket agent_id ip now agent) m.agents;
      connections_per_ip = add_ip ip (drop_old (lookup agent_id m.agents) m.connections_per_ip);
      agent_heartbeats = insert agent_id now m.agent_heartbeats;
    } in
    record registered {
      stats =
          update_peak (total_connections registered)
            (record (record_connection cfg.connection_stats_window_seconds now m.stats) {
              total_agents_connected = agent_count registered;
            });
    }

-- A connection attempt after its check: refused, or gone on with.
unfoldable pub after_check :
    Settings
    → ℕ
    → Manager × Option Rejection
    → (Manager → Manager × Option Rejection)
    → Manager × Option Rejection
unfolding reject
after_check cfg now (m, some r) go_on = (reject cfg now r m, some r)
after_check cfg now (m, none) go_on = go_on m

unfoldable pub connect_agent :
    Settings → ℕ → String → ℕ → String → Manager → Manager × Option Rejection
unfolding after_check can_accept_connection register_agent
connect_agent cfg now agent_id websocket ip m =
    after_check cfg now (can_accept_connection cfg m ip)
      (λ m'. (register_agent cfg now agent_id websocket ip m', none))

unfoldable pub disconnect_agent : String → Manager → Manager
unfolding release_ip
disconnect_agent agent_id m = elim (lookup agent_id m.agents) [
  | none ↦ m
  | some info ↦
      let left : Manager = record m {
        agents = delete agent_id m.agents;
        connections_per_ip = release_ip info.ip_address m.connections_per_ip;
      } in
      record left { stats = record m.stats { total_agents_connected = agent_count left } }
]

-- The part of `connect_client` behind the accept of the WebSocket, up to the command to the agent.
unfoldable pub register_client : Settings → ℕ → String → ℕ → String → Manager → Manager
unfolding add_ip update_peak
register_client cfg now agent_id websocket ip m =
    let registered : Manager = record m {
      clients =
          insert agent_id
            (get_or agent_id m.clients [] ++ new_info websocket agent_id ip now client ∷ [])
            m.clients;
      connections_per_ip = add_ip ip m.connections_per_ip;
    } in
    record registered {
      stats =
          update_peak (total_connections registered)
            (record (record_connection cfg.connection_stats_window_seconds now m.stats) {
              total_clients_connected = client_count registered;
            });
    }

unfoldable pub connect_client :
    Settings → ℕ → String → ℕ → String → Manager → Manager × Option Rejection
unfolding after_check can_accept_connection register_client read_default
connect_client cfg now agent_id websocket ip m =
    after_check cfg now (can_accept_connection cfg m ip) (λ m'.
      after_check cfg now
        (
          record m' { clients = read_default agent_id [] m'.clients },
          if leb cfg.max_ui_clients_per_agent (length (get_or agent_id m'.clients []))
              then some ("agent_client_limit", 5)
              else none,
        )
        (λ m''. (register_client cfg now agent_id websocket ip m'', none)))
