-- ===== src/Notifications/Subscriptions.antt =====
-- What one channel with odd events does to the others.
use log_librarian.Prelude.{
  ◌≡◌, refl, ap, ◌∙◌, String, Bool, true, false, none, some, List, [], ◌∷◌, ◌++◌, Option-cases, inl,
  inr,
}
use log_librarian.Notifications.Manager.{
  Subscriber, Services, is_match, add_match, matching, get_subscribed_channels, send_to, skipped,
  send_notification,
}

module _ {J W : Type 0} (V : Services J W) where
  none_added : (c : Subscriber J) (matches : Bool) → add_match V c matches none ≡ none
  unfolding add_match
  none_added c true = refl
  none_added c false = refl

  raise_stops :
      (event : String) (before : List (Subscriber J)) (c : Subscriber J)
      (after : List (Subscriber J))
      → is_match V event c ≡ none
      → matching V event (before ++ c ∷ after) ≡ none
  unfolding matching
  raise_stops event [] c after h = rw (h, matching) refl
  raise_stops event (b ∷ before) c after h = elim (Option-cases (is_match V event b)) [
    | inl e ↦ rw (e, matching) refl
    | inr (matches, e) ↦
        rw (e, matching)
          (ap (add_match V b matches) (raise_stops event before c after h) ∙ none_added b matches)
  ]

  -- If one channel of a tenant, enabled or with no such key, has events of which `in` raises, then
  -- no channel of the tenant is sent anything: the notification is skipped as one with no
  -- subscribers, and the world outside is left as it was.
  pub odd_channel_silences_all :
      (event title body tenant : String) (before : List (Subscriber J)) (c : Subscriber J)
      (after : List (Subscriber J)) (w : W)
      → V.available ≡ true
      → V.channels tenant w ≡ some (before ++ c ∷ after)
      → is_match V event c ≡ none
      → send_notification V event title body tenant w ≡ (skipped "no_subscribers", w)
  unfolding send_notification send_to get_subscribed_channels
  odd_channel_silences_all event title body tenant before c after w a l h =
      rw (a, send_notification, get_subscribed_channels, l, raise_stops event before c after h) refl
