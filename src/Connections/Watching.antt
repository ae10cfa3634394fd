-- ===== src/Connections/Watching.antt =====
-- An agent is told to stop streaming exactly when its last client leaves.
use log_librarian.Prelude.{
  ◌≢◌, ◌∙◌, ℕ, ◌+◌, ◌≡◌, refl, String, ◌&&◌, none, some, List, [], ◌∷◌, arith, ◌==◌, if◌then◌else◌,
  Option-cases, inl, inr, length,
}
use log_librarian.Prelude.Dict.{lookup, get_or, contains, get_or-insert, str_eq_refl}
use log_librarian.Connections.Stats.{ConnectionInfo}
use log_librarian.Connections.Manager.{Manager}
use log_librarian.Connections.Traffic.{
  stop_stream, find_socket, remove_socket, remove_client, drop_unwatched, count_clients,
  disconnect_client,
}

-- The clients that watch an agent.
abbrev pub watching : String → Manager → List ConnectionInfo
watching k m = get_or k m.clients []

length-remove_socket :
    (w : ℕ) (is : List ConnectionInfo) (i : ConnectionInfo)
    → find_socket w is ≡ some i
    → length (remove_socket w is) + 1 ≡ length is
unfolding find_socket remove_socket
length-remove_socket w [] i h = absurd (ground arith)
length-remove_socket w (j ∷ is) i h = ground (arith, length-remove_socket w is i)

watching-some :
    (k : String) (m : Manager) (is : List ConnectionInfo)
    → lookup k m.clients ≡ some is
    → watching k m ≡ is
unfolding get_or
watching-some k m is h = rw (h, get_or)

drop_commands :
    (k : String) (m : Manager)
    → (drop_unwatched k m).1
      ≡ (if (length (watching k m) == 0) && contains k m.agents then stop_stream k ∷ [] else [])
unfolding drop_unwatched
drop_commands k m = ground arith

after_removal :
    (k : String) (w : ℕ) (is : List ConnectionInfo) (i : ConnectionInfo) (m : Manager)
    → find_socket w is ≡ some i
    → (watching k (count_clients (remove_client k w is m)) ≡ remove_socket w is)
      × ((count_clients (remove_client k w is m)).agents ≡ m.agents)
unfolding count_clients remove_client
after_removal k w is i m here =
    rw (here, remove_client)
      (get_or-insert k k (remove_socket w is) [] m.clients ∙ rw (str_eq_refl k), refl)

watching-none : (k : String) (m : Manager) → lookup k m.clients ≡ none → watching k m ≡ []
unfolding get_or
watching-none k m h = rw (h, get_or)

find_nobody :
    (w : ℕ) (is : List ConnectionInfo) (i : ConnectionInfo) → is ≡ [] → find_socket w is ≢ some i
unfolding find_socket
find_nobody w is i h = ground arith

-- Where a client of an agent disconnects on a socket that is registered for the agent, the agent is
-- sent `stop_stream` exactly if it is connected and had that one client; nothing else is sent.
pub stops_with_last_client :
    (k : String) (w : ℕ) (i : ConnectionInfo) (m : Manager)
    → find_socket w (watching k m) ≡ some i
    → (disconnect_client k w m).1
      ≡ (if (length (watching k m) == 1) && contains k m.agents then stop_stream k ∷ [] else [])
unfolding disconnect_client
stops_with_last_client k w i m here = elim (Option-cases (lookup k m.clients)) [
  | inl absent ↦
      let nobody : watching k m ≡ [] = watching-none k m absent in
      absurd (find_nobody w (watching k m) i nobody here)
  | inr (is, some_is) ↦
      let found : watching k m ≡ is = watching-some k m is some_is in
      let here' = rw found at here in
      let (left, same) = after_removal k w is i m here' in
      rw (some_is, disconnect_client)
        (drop_commands k (count_clients (remove_client k w is m))
          ∙ ground (arith, found, left, same, length-remove_socket w is i here'))
]
