-- ===== src/Notifications/Manager.antt =====
-- `NotificationManager.send_notification` and `_get_subscribed_channels`. `J` is the type of a JSON
-- value and `W` the world outside, with the database and Apprise.
use log_librarian.Prelude.{
  ℕ, ◌+◌, String, Bool, true, false, Option, none, some, List, [], ◌∷◌, length, if◌then◌else◌,
}

-- `channel.get('events', [])`: a JSON value, or the text of one.
pub data Events (J : Type 0) : Type 0 where
  no_events : Events J
  decoded : J → Events J
  encoded : String → Events J

pub record Subscriber (J : Type 0) : Type 0 where
  pub id : ℕ
  pub url : String
  pub enabled : Option Bool
  pub events : Events J

-- The dictionaries of the channels that match.
pub record Target : Type 0 where
  pub id : ℕ
  pub url : String

pub record Attempted : Type 0 where
  pub channel_id : ℕ
  pub event_type : String
  pub title : String
  pub body : String
  pub status : String
  pub error : Option String

-- What a call of `async_notify` ends with: its answer, or none if it raises.
abbrev pub Delivered : Type 0
Delivered = Option Bool

-- What the manager uses of the database, of Apprise and of `json`: `loads` is none where it raises,
-- and `has` is `in`, none where the value is not one that has members.
pub record Services (J W : Type 0) : Type 0 where
  pub available : Bool
  pub channels : String → W → Option (List (Subscriber J))
  pub loads : String → Option J
  pub has : String → J → Option Bool
  pub notify : String → String → String → W → Delivered × W
  pub add_history : Attempted → W → W

-- What `send_notification` returns, or that it raises.
pub data Sent : Type 0 where
  skipped : String → Sent
  completed : ℕ → ℕ → ℕ → Sent
  raised : Sent

module _ {J W : Type 0} (V : Services J W) where
  -- `event_type in events or 'all' in events`
  unfoldable pub has_event : String → J → Option Bool
  has_event event j = elim (V.has event j) [
    | none ↦ none
    | some true ↦ some true
    | some false ↦ V.has "all" j
  ]

  unfoldable pub subscribes : String → Events J → Option Bool
  unfolding has_event
  subscribes event no_events = some false
  subscribes event (decoded j) = has_event event j
  subscribes event (encoded s) = elim (V.loads s) [ none ↦ some false | some j ↦ has_event event j ]

  -- The body of the loop of `_get_subscribed_channels`: if the channel matches; none if it raises.
  unfoldable pub is_match : String → Subscriber J → Option Bool
  unfolding subscribes
  is_match event c = elim c.enabled [
    | some false ↦ some false
    | some true ↦ subscribes event c.events
    | none ↦ subscribes event c.events
  ]

  unfoldable pub add_match : Subscriber J → Bool → Option (List Target) → Option (List Target)
  add_match c matches none = none
  add_match c true (some ts) = some (record { id = c.id; url = c.url } ∷ ts)
  add_match c false (some ts) = some ts

  unfoldable pub matching : String → List (Subscriber J) → Option (List Target)
  unfolding is_match add_match
  matching event [] = some []
  matching event (c ∷ cs) =
      let rest = matching event cs in
      elim (is_match event c) [ none ↦ none | some matches ↦ add_match c matches rest ]

  -- `_get_subscribed_channels`: an exception anywhere in it gives the empty list.
  unfoldable pub get_subscribed_channels : String → String → W → List Target
  unfolding matching
  get_subscribed_channels event tenant w = elim (V.channels tenant w) [
    | none ↦ []
    | some cs ↦ elim (matching event cs) [ none ↦ [] | some ts ↦ ts ]
  ]

  -- `_record_history`, which swallows what the database raises.
  unfoldable pub record_history : String → String → String → ℕ → Bool → W → W
  record_history event title body id success w =
      V.add_history
        (record {
          channel_id = id;
          event_type = event;
          title = title;
          body = body;
          status = if success then "sent" else "failed";
          error = if success then none else some "Failed to send (check logs)";
        })
        w

  -- The loop of `send_notification`, with the counts so far; nothing catches what Apprise raises.
  unfoldable pub send_all : String → String → String → ℕ → ℕ → ℕ → List Target → W → Sent × W
  unfolding record_history
  send_all event title body total sent failed [] w = (completed sent failed total, w)
  send_all event title body total sent failed (t ∷ ts) w =
      let (r, w') = V.notify t.url title body w in
      elim r [
        | none ↦ (raised, w')
        | some true ↦
            send_all event title body total (sent + 1) failed ts
              (record_history event title body t.id true w')
        | some false ↦
            send_all event title body total sent (failed + 1) ts
              (record_history event title body t.id false w')
      ]

  unfoldable pub send_to : String → String → String → List Target → W → Sent × W
  unfolding send_all
  send_to event title body [] w = (skipped "no_subscribers", w)
  send_to event title body (t ∷ ts) w = send_all event title body (length (t ∷ ts)) 0 0 (t ∷ ts) w

  -- `send_notification`
  unfoldable pub send_notification : String → String → String → String → W → Sent × W
  unfolding send_to get_subscribed_channels
  send_notification event title body tenant w =
      if V.available
      then send_to event title body (get_subscribed_channels event tenant w) w
      else (skipped "apprise_not_installed", w)
