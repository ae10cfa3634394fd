-- ===== src/Connections/Runs.antt =====
-- The operations of the manager, one after the other.
use log_librarian.Prelude.{ℕ, String, Bool, List, [], ◌∷◌}
use log_librarian.Connections.Stats.{Settings}
use log_librarian.Connections.Manager.{Manager, connect_agent, disconnect_agent, connect_client}
use log_librarian.Connections.Traffic.{
  disconnect_client, broadcast_to_clients, update_heartbeat, record_message, record_slow_handler,
  queue_status_update, flush_status_updates,
}

-- A call, with its arguments.
pub data Op : Type 0 where
  connect_agent_op connect_client_op : ℕ → String → ℕ → String → Op
  disconnect_agent_op : String → Op
  disconnect_client_op : String → ℕ → Op
  broadcast_op : String → ℕ → (ℕ → Bool) → Bool → Op
  heartbeat_op : ℕ → String → Op
  message_op : String → ℕ → Op
  slow_handler_op : String → Op
  queue_status_op : String → String → ℕ → Op
  flush_op : Op

unfoldable pub step : Settings → Manager → Op → Manager
step cfg m (connect_agent_op now k w ip) = (connect_agent cfg now k w ip m).0
step cfg m (connect_client_op now k w ip) = (connect_client cfg now k w ip m).0
step cfg m (disconnect_agent_op k) = disconnect_agent k m
step cfg m (disconnect_client_op k w) = (disconnect_client k w m).0
step cfg m (broadcast_op k size works slow) = (broadcast_to_clients k size works slow m).0
step cfg m (heartbeat_op now k) = update_heartbeat now k m
step cfg m (message_op k bytes) = record_message k bytes m
step cfg m (slow_handler_op k) = record_slow_handler k m
step cfg m (queue_status_op k s t) = queue_status_update k s t m
step cfg m flush_op = (flush_status_updates m).0

unfoldable pub run : Settings → Manager → List Op → Manager
unfolding step
run cfg m [] = m
run cfg m (op ∷ ops) = run cfg (step cfg m op) ops
