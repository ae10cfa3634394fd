-- ===== src/Notifications/Examples.antt =====
-- The theorems on notifications at concrete channels, and runs of the code.
use log_librarian.Prelude.{
  ℕ, ◌≡◌, refl, String, Bool, true, false, Option, none, some, List, [], ◌∷◌, ◌++◌, str_eq,
  if◌then◌else◌,
}
use log_librarian.Notifications.Manager.{
  decoded, encoded, Subscriber, Attempted, Services, skipped, is_match, get_subscribed_channels,
  send_notification,
}
use log_librarian.Notifications.Subscriptions.{odd_channel_silences_all}

-- A JSON value: a list of names, or a number.
data Json : Type 0 where
  names : List String → Json
  count : ℕ → Json

abbrev is_in : String → List String → Bool
is_in s [] = false
is_in s (t ∷ ts) = let rest = is_in s ts in if str_eq t s then true else rest

abbrev has : String → Json → Option Bool
has s (names ts) = some (is_in s ts)
has s (count n) = none

abbrev email : Subscriber Json
email = record {
  id = 1;
  url = "mailto://ops";
  enabled = some true;
  events = decoded (names ("agent_offline" ∷ []));
}

abbrev chat : Subscriber Json
chat = record { id = 2; url = "slack://ops"; enabled = none; events = encoded "[\"all\"]" }

abbrev odd : Subscriber Json
odd = record { id = 3; url = "json://ops"; enabled = none; events = encoded "5" }

-- A world with the notification history and Apprise's answers; the chat cannot be reached.
abbrev Outside : Type 0
Outside = List Attempted × List Bool

abbrev services : List (Subscriber Json) → Services Json Outside
services cs = record {
  available = true;
  channels = λ tenant w. some cs;
  loads = λ s. if str_eq s "5" then some (count 5) else some (names ("all" ∷ []));
  has = has;
  notify = λ url title body w.
      (some (str_eq url "mailto://ops"), (w.0, w.1 ++ str_eq url "mailto://ops" ∷ []));
  add_history = λ h w. (w.0 ++ h ∷ [], w.1);
}

both_found :
    get_subscribed_channels (services (email ∷ chat ∷ [])) "agent_offline" "default" ([], [])
    ≡ record { id = 1; url = "mailto://ops" } ∷ record { id = 2; url = "slack://ops" } ∷ []
unfolding get_subscribed_channels
both_found = refl

odd_raises : is_match (services (email ∷ odd ∷ [])) "agent_offline" odd ≡ none
unfolding is_match
odd_raises = refl

odd_channel_silences_all_example :
    send_notification
      (services (email ∷ odd ∷ []))
      "agent_offline"
      "Offline"
      "web"
      "default"
      ([], [])
    ≡ (skipped "no_subscribers", ([], []))
odd_channel_silences_all_example =
    odd_channel_silences_all (services (email ∷ odd ∷ [])) "agent_offline" "Offline" "web" "default"
      (email ∷ []) odd [] ([], []) refl refl odd_raises
