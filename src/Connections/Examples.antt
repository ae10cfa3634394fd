-- ===== src/Connections/Examples.antt =====
-- The theorems on connections at concrete managers, and runs of the code.
use log_librarian.Prelude.{
  ◌+◌, ◌≡◌, refl, false, ◌&&◌, none, List, [], ◌∷◌, arith, length, ◌==◌, if◌then◌else◌, eq_iff,
}
use mathlib.Core.Bool.{false≢true}
use log_librarian.Prelude.Dict.{lookup, get_or, contains, sum_values}
use log_librarian.Connections.Stats.{Settings, default_settings, new_info, client}
use log_librarian.Connections.Manager.{
  Manager, new_manager, total_connections, can_accept_connection,
}
use log_librarian.Connections.Traffic.{stop_stream, disconnect_client, find_socket}
use log_librarian.Connections.Runs.{
  Op, connect_agent_op, connect_client_op, disconnect_agent_op, broadcast_op, heartbeat_op, run,
}
use log_librarian.Connections.Limits.{IsSafe, run-IsSafe, new_manager-IsSafe}
use log_librarian.Connections.Overlap.{overlap, overlap_exceeds_limit}
use log_librarian.Connections.Watching.{watching, stops_with_last_client}

abbrev small : Settings
small = record default_settings { max_total_connections = 2; max_connections_per_ip = 2 }

abbrev day : List Op
day =
    connect_agent_op 10 "a1" 1 "10.0.0.1"
    ∷ connect_client_op 11 "a1" 2 "10.0.0.9"
    ∷ connect_agent_op 12 "a1" 3 "10.0.0.1"
    ∷ heartbeat_op 13 "a1"
    ∷ broadcast_op "a1" 100 (λ w. w == 7) false
    ∷ disconnect_agent_op "a1"
    ∷ connect_client_op 14 "a2" 4 "10.0.0.9"
    ∷ []

run-IsSafe_example : IsSafe small (run small new_manager day)
run-IsSafe_example = run-IsSafe small new_manager day (new_manager-IsSafe small)

abbrev one_agent : Manager
one_agent = record new_manager {
  agents = ("a1", new_info 1 "a1" "10.0.0.1" 10 client) ∷ [];
  connections_per_ip = ("10.0.0.1", 1) ∷ [];
}

overlap_exceeds_limit_example :
    ((can_accept_connection small one_agent "10.0.0.2").1 ≡ none)
    × ((can_accept_connection small
          (can_accept_connection small one_agent "10.0.0.2").0
          "10.0.0.3").1
        ≡ none)
    × (total_connections (overlap small 20 "a2" 5 "10.0.0.2" "a3" 6 "10.0.0.3" one_agent) ≡ 2 + 1)
unfolding total_connections sum_values get_or lookup
overlap_exceeds_limit_example =
    overlap_exceeds_limit small 20 "a2" "a3" 5 6 "10.0.0.2" "10.0.0.3" one_agent refl (omega arith)
      (omega arith) refl refl (λ p. false≢true ((eq_iff "a2" "a3").1 p))

abbrev watched : Manager
watched = record one_agent {
  clients = ("a1", new_info 2 "a1" "10.0.0.9" 11 client ∷ []) ∷ [];
  connections_per_ip = ("10.0.0.1", 1) ∷ ("10.0.0.9", 1) ∷ [];
}

stops_with_last_client_example : (disconnect_client "a1" 2 watched).1 ≡ (
    if (length (watching "a1" watched) == 1) && contains "a1" watched.agents
    then stop_stream "a1" ∷ []
    else [])
unfolding find_socket get_or lookup
stops_with_last_client_example =
    stops_with_last_client "a1" 2 (new_info 2 "a1" "10.0.0.9" 11 client) watched refl
