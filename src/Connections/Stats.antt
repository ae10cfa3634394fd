-- ===== src/Connections/Stats.antt =====
-- `ConnectionInfo` and `ConnectionStats` of librarian/connection_manager.py, and the settings read
-- from the environment. A time is a clock reading in seconds.
use log_librarian.Prelude.{ℕ, ◌+◌, String, List, [], ◌∷◌, ◌++◌, ltb, keep_if, str_eq, if◌then◌else◌}

pub record Settings : Type 0 where
  pub max_connections_per_ip : ℕ
  pub max_total_connections : ℕ
  pub max_ui_clients_per_agent : ℕ
  pub agent_timeout_seconds : ℕ
  pub connection_stats_window_seconds : ℕ

abbrev pub default_settings : Settings
default_settings = record {
  max_connections_per_ip = 10;
  max_total_connections = 500;
  max_ui_clients_per_agent = 20;
  agent_timeout_seconds = 120;
  connection_stats_window_seconds = 300;
}

pub data ConnectionType : Type 0 where
  agent client : ConnectionType

-- A WebSocket object is compared by identity: it is a number.
pub record ConnectionInfo : Type 0 where
  pub websocket : ℕ
  pub agent_id : String
  pub ip_address : String
  pub connected_at : ℕ
  pub last_activity : ℕ
  pub connection_type : ConnectionType
  pub messages_received : ℕ
  pub messages_sent : ℕ
  pub bytes_received : ℕ
  pub bytes_sent : ℕ
  pub slow_handlers : ℕ

abbrev pub new_info : ℕ → String → String → ℕ → ConnectionType → ConnectionInfo
new_info websocket agent_id ip now kind = record {
  websocket = websocket;
  agent_id = agent_id;
  ip_address = ip;
  connected_at = now;
  last_activity = now;
  connection_type = kind;
  messages_received = 0;
  messages_sent = 0;
  bytes_received = 0;
  bytes_sent = 0;
  slow_handlers = 0;
}

pub record ConnectionStats : Type 0 where
  pub total_connections_accepted : ℕ
  pub total_connections_rejected : ℕ
  pub total_agents_connected : ℕ
  pub total_clients_connected : ℕ
  pub connections_rejected_ip_limit : ℕ
  pub connections_rejected_total_limit : ℕ
  pub total_messages_processed : ℕ
  pub total_bytes_received : ℕ
  pub total_bytes_sent : ℕ
  pub slow_handlers_logged : ℕ
  pub peak_connections : ℕ
  pub connection_times : List ℕ
  pub rejection_times : List ℕ

abbrev pub no_stats : ConnectionStats
no_stats = record {
  total_connections_accepted = 0;
  total_connections_rejected = 0;
  total_agents_connected = 0;
  total_clients_connected = 0;
  connections_rejected_ip_limit = 0;
  connections_rejected_total_limit = 0;
  total_messages_processed = 0;
  total_bytes_received = 0;
  total_bytes_sent = 0;
  slow_handlers_logged = 0;
  peak_connections = 0;
  connection_times = [];
  rejection_times = [];
}

-- `[t for t in times if t > now - window]` behind an append of `now`.
unfoldable pub add_time : ℕ → ℕ → List ℕ → List ℕ
add_time window now ts = keep_if (λ t. ltb now (t + window)) (ts ++ now ∷ [])

unfoldable pub record_connection : ℕ → ℕ → ConnectionStats → ConnectionStats
unfolding add_time
record_connection window now s = record s {
  total_connections_accepted = s.total_connections_accepted + 1;
  connection_times = add_time window now s.connection_times;
}

-- The counter of the reason, where it has one.
unfoldable pub count_reason : String → ConnectionStats → ConnectionStats
count_reason reason s =
    if str_eq reason "ip_limit"
    then record s { connections_rejected_ip_limit = s.connections_rejected_ip_limit + 1 }
    else if str_eq reason "total_limit"
    then record s { connections_rejected_total_limit = s.connections_rejected_total_limit + 1 }
    else s

unfoldable pub record_rejection : ℕ → ℕ → String → ConnectionStats → ConnectionStats
unfolding add_time count_reason
record_rejection window now reason s =
    let counted = count_reason reason s in
    record counted {
      total_connections_rejected = s.total_connections_rejected + 1;
      rejection_times = add_time window now s.rejection_times;
    }
