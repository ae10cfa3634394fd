-- ===== src/Connections/Measure.antt =====
-- Sums over the connections that a manager holds.
use log_librarian.Prelude.{
  ℕ, ◌+◌, ◌≡◌, refl, String, List, [], ◌∷◌, ◌++◌, arith, length, if◌then◌else◌, str_eq,
}
use log_librarian.Prelude.Dict.{Dict, sum_values}
use log_librarian.Connections.Stats.{ConnectionInfo}
use log_librarian.Connections.Manager.{Manager, total_connections}

-- A sum over a list of connections, of a function of the address.
abbrev pub sum_list : (String → ℕ) → List ConnectionInfo → ℕ
sum_list f [] = 0
sum_list f (i ∷ is) = f i.ip_address + sum_list f is

unfoldable pub sum_connections : (String → ℕ) → Manager → ℕ
sum_connections f m = sum_values (λ i. f i.ip_address) m.agents + sum_values (sum_list f) m.clients

-- 1 at the address, so that the sum counts the connections from it.
abbrev pub from : String → String → ℕ
from ip address = if str_eq address ip then 1 else 0

abbrev pub each : String → ℕ
each ip = 1

pub sum_list-append :
    (f : String → ℕ) (is js : List ConnectionInfo)
    → sum_list f (is ++ js) ≡ sum_list f is + sum_list f js
sum_list-append f [] js = omega arith
sum_list-append f (i ∷ is) js = omega (arith, sum_list-append f is js)

sum_list-each : (is : List ConnectionInfo) → sum_list each is ≡ length is
sum_list-each [] = refl
sum_list-each (i ∷ is) = omega (arith, sum_list-each is)

sum_values-each :
    (d : Dict (List ConnectionInfo)) → sum_values (sum_list each) d ≡ sum_values length d
unfolding sum_values
sum_values-each [] = refl
sum_values-each ((k, is) ∷ d) = omega (arith, sum_list-each is, sum_values-each d)

pub total_connections-sum : (m : Manager) → total_connections m ≡ sum_connections each m
unfolding total_connections sum_connections
total_connections-sum m = omega (arith, sum_values-each m.clients)
