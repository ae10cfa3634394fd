-- ===== src/Notifications/Totals.antt =====
-- What a notification that is sent counts, and what it leaves in the history.
use log_librarian.Prelude.{
  ℕ, ◌+◌, ◌≡◌, String, Bool, true, false, none, some, List, [], ◌∷◌, ◌++◌, length, keep_if, not,
}
use log_librarian.Notifications.Manager.{Target, Attempted, Services, Sent, completed, skipped}

-- A world with a notification history, `log`, and the answers that Apprise gave so far, `given`: a
-- record adds its entry to the history alone, and each notification is answered, which the world
-- remembers.
pub record IsAnswering {J W : Type 0} (V : Services J W) (log : W → List Attempted)
    (given : W → List Bool) : Type 0 where
  pub adds :
      (h : Attempted) (w : W)
      → (log (V.add_history h w) ≡ log w ++ h ∷ []) × (given (V.add_history h w) ≡ given w)
  pub answers :
      (url title body : String) (w : W)
      → (b : Bool) × ((V.notify url title body w).0 ≡ some b)
        × (log (V.notify url title body w).1 ≡ log w)
        × (given (V.notify url title body w).1 ≡ given w ++ b ∷ [])

-- The history of a notification to a channel, for Apprise's answer.
abbrev pub attempt : String → String → String → ℕ → Bool → Attempted
attempt event title body id true = record {
  channel_id = id;
  event_type = event;
  title = title;
  body = body;
  status = "sent";
  error = none;
}
attempt event title body id false = record {
  channel_id = id;
  event_type = event;
  title = title;
  body = body;
  status = "failed";
  error = some "Failed to send (check logs)";
}

-- The history of the notifications to some channels, one entry for each with its answer.
abbrev pub attempts : String → String → String → List Target → List Bool → List Attempted
attempts event title body [] bs = []
attempts event title body (t ∷ ts) [] = []
attempts event title body (t ∷ ts) (b ∷ bs) =
    attempt event title body t.id b ∷ attempts event title body ts bs

module _ {W : Type 0} (log : W → List Attempted) (given : W → List Bool) where
  -- From the world `w`, with `sent` and `failed` counted before, the channels `ts` were notified,
  -- each once and in order: with the answers `bs`, which the counts and the history repeat.
  abbrev pub IsSent : String → String → String → ℕ → ℕ → ℕ → List Target → W → Sent × W → Type 0
  IsSent event title body total sent failed ts w r =
      (bs : List Bool) × (given r.1 ≡ given w ++ bs)
      × (length bs ≡ length ts)
      × (log r.1 ≡ log w ++ attempts event title body ts bs)
      × (r.0
          ≡ completed (sent + length (keep_if (λ b. b) bs)) (failed + length (keep_if not bs))
              total)

  -- What a notification to the channels `ts` leaves: nothing happens where there are none.
  abbrev pub IsNotified : String → String → String → List Target → W → Sent × W → Type 0
  IsNotified event title body [] w r = r ≡ (skipped "no_subscribers", w)
  IsNotified event title body (t ∷ ts) w r =
      IsSent event title body (length (t ∷ ts)) 0 0 (t ∷ ts) w r

abbrev one_if : Bool → ℕ
one_if true = 1
one_if false = 0
