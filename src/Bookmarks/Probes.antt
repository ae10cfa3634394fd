-- ===== src/Bookmarks/Probes.antt =====
-- The checks of librarian/bookmark_monitor.py. Latencies are whole milliseconds; `W` is the world,
-- with the network.
use Prim.Native.String.{◌++◌}
use text.Mathlib.Text.{find?, starts_with}
use log_librarian.Prelude.{
  ℕ, String, Bool, true, false, ◌&&◌, ◌||◌, Option, none, some, leb, ltb, str_eq, if◌then◌else◌,
}
use log_librarian.Prelude.Text.{str_nat, first_chars}

-- The status of a check: 0 and 1 in the source.
pub data Status : Type 0 where
  down up : Status

pub record CheckResult : Type 0 where
  pub status : Status
  pub latency_ms : ℕ
  pub message : String

-- A row of `bookmarks`, which has all its columns.
pub record Bookmark : Type 0 where
  pub id : String
  pub tenant_id : String
  pub name : String
  pub check_type : String
  pub target : String
  pub port : Option ℕ
  pub interval_seconds : ℕ
  pub timeout_seconds : ℕ
  pub active : Bool

-- How a request ends: with the status of its response, out of time, or with an exception.
pub data HttpOutcome : Type 0 where
  responded : ℕ → HttpOutcome
  http_timeout : HttpOutcome
  http_raised : String → HttpOutcome

-- How `ping` ends: with success or not and its output, out of time, or with an exception.
pub data PingOutcome : Type 0 where
  exited : Bool → String → PingOutcome
  ping_timeout : PingOutcome
  ping_raised : String → PingOutcome

pub data TcpOutcome : Type 0 where
  connected tcp_timeout refused : TcpOutcome
  tcp_raised : String → TcpOutcome

-- What the checks use: each call gives its outcome and the milliseconds that it took. `host_of` is
-- `urlparse`'s host name, or else its path; `ping_time` reads the time of ping's output, none where
-- that raises.
pub record Network (W : Type 0) : Type 0 where
  pub http_get : String → ℕ → W → (HttpOutcome × ℕ) × W
  pub ping : String → ℕ → W → (PingOutcome × ℕ) × W
  pub open_connection : String → Option ℕ → ℕ → W → (TcpOutcome × ℕ) × W
  pub host_of : String → String
  pub ping_time : String → Option ℕ

unfoldable pub check_result : Status → ℕ → String → CheckResult
check_result status latency_ms message = record {
  status = status;
  latency_ms = latency_ms;
  message = message;
}

unfoldable pub has_scheme : String → Bool
has_scheme url = starts_with url "http://" || starts_with url "https://"

unfoldable pub http_result : HttpOutcome × ℕ → CheckResult
unfolding check_result first_chars
http_result (responded code, latency) =
    if leb 200 code && ltb code 300
    then check_result up latency ("HTTP " ++ str_nat code)
    else check_result down latency ("HTTP " ++ str_nat code)
http_result (http_timeout, latency) = check_result down latency "Timeout"
http_result (http_raised message, latency) = check_result down latency (first_chars 100 message)

-- The latency that ping's output has, or the measured one.
unfoldable pub ping_latency : (String → Option ℕ) → String → ℕ → ℕ
ping_latency ping_time output latency = elim (find? output "time=") [
  | none ↦ latency
  | some _ ↦ elim (ping_time output) [ none ↦ latency | some t ↦ t ]
]

unfoldable pub ping_result : (String → Option ℕ) → PingOutcome × ℕ → CheckResult
unfolding check_result first_chars ping_latency
ping_result ping_time (exited true output, latency) =
    check_result up (ping_latency ping_time output latency) "Ping OK"
ping_result ping_time (exited false output, latency) = check_result down latency "Ping failed"
ping_result ping_time (ping_timeout, latency) = check_result down latency "Timeout"
ping_result ping_time (ping_raised message, latency) =
    check_result down latency (first_chars 100 message)

unfoldable pub str_port : Option ℕ → String
str_port none = "None"
str_port (some p) = str_nat p

unfoldable pub tcp_result : Option ℕ → TcpOutcome × ℕ → CheckResult
unfolding check_result first_chars str_port
tcp_result port (connected, latency) = check_result up latency ("Port " ++ str_port port ++ " open")
tcp_result port (tcp_timeout, latency) =
    check_result down latency ("Port " ++ str_port port ++ " timeout")
tcp_result port (refused, latency) =
    check_result down latency ("Port " ++ str_port port ++ " refused")
tcp_result port (tcp_raised message, latency) = check_result down latency (first_chars 100 message)

module _ {W : Type 0} (network : Network W) where
  unfoldable pub check_http : String → ℕ → W → CheckResult × W
  unfolding http_result has_scheme
  check_http url timeout w =
      let (outcome, w') =
        network.http_get (if has_scheme url then url else "http://" ++ url) timeout w in
      (http_result outcome, w')

  unfoldable pub check_icmp : String → ℕ → W → CheckResult × W
  unfolding ping_result has_scheme
  check_icmp host timeout w =
      let (outcome, w') =
        network.ping (if has_scheme host then network.host_of host else host) timeout w in
      (ping_result network.ping_time outcome, w')

  unfoldable pub check_tcp : String → Option ℕ → ℕ → W → CheckResult × W
  unfolding tcp_result
  check_tcp host port timeout w =
      let (outcome, w') = network.open_connection host port timeout w in
      (tcp_result port outcome, w')

  -- `_perform_check`
  unfoldable pub perform_check : Bookmark → W → CheckResult × W
  unfolding check_http check_icmp check_tcp check_result
  perform_check b w =
      if str_eq b.check_type "http"
      then check_http b.target b.timeout_seconds w
      else if str_eq b.check_type "icmp"
      then check_icmp b.target b.timeout_seconds w
      else if str_eq b.check_type "tcp-port"
      then check_tcp b.target b.port b.timeout_seconds w
      else (check_result down 0 ("Unknown check type: " ++ b.check_type), w)
