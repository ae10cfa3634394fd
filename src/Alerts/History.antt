-- ===== src/Alerts/History.antt =====
-- What `_send_to_channels` leaves in the notification history.
use log_librarian.Prelude.{
  ℕ, ◌≡◌, refl, sym, ap, ◌∙◌, String, Bool, true, none, List, [], ◌∷◌, ◌++◌, ◌⊎◌, inl, inr,
}
use mathlib.Core.List.{append_assoc, append-nil}
use log_librarian.Alerts.Engine.{
  Channel, History, Notified, answered, failed, Outside, record_failure, record_answer,
  send_to_channel, send_each,
}

Notified-cases : (r : Notified) → ((b : Bool) × (r ≡ answered b)) ⊎ ((m : String) × (r ≡ failed m))
Notified-cases (answered b) = inl (b, refl)
Notified-cases (failed m) = inr (m, refl)

-- The history that a world holds: a write that does not raise adds its entry at the end, and a
-- notification leaves the history alone.
pub record IsLogged {W : Type 0} (O : Outside W) (log : W → List History) : Type 0 where
  pub writes : (h : History) (w : W) → (O.add_history h w).0 ≡ none
  pub adds : (h : History) (w : W) → log (O.add_history h w).1 ≡ log w ++ h ∷ []
  pub notifies : (url title body : String) (w : W) → log (O.notify url title body w).1 ≡ log w

-- The channels of the entries of a history.
abbrev pub ids : List History → List ℕ
ids [] = []
ids (h ∷ hs) = h.channel_id ∷ ids hs

abbrev pub channel_ids : List Channel → List ℕ
channel_ids [] = []
channel_ids (c ∷ cs) = c.id ∷ channel_ids cs

ids-append : (xs ys : List History) → ids (xs ++ ys) ≡ ids xs ++ ids ys
ids-append [] ys = refl
ids-append (x ∷ xs) ys = ap (λ l. x.channel_id ∷ l) (ids-append xs ys)

module _ {W : Type 0} (O : Outside W) (log : W → List History) (laws : IsLogged O log) where
  added : (h : History) (w : W) → ids (log (O.add_history h w).1) ≡ ids (log w) ++ h.channel_id ∷ []
  added h w = ap ids (laws.adds h w) ∙ ids-append (log w) (h ∷ [])

  failure_lem :
      (event title body : String) (c : ℕ) (message : String) (w : W)
      → ((record_failure O event title body c message w).0 ≡ true)
        × (ids (log (record_failure O event title body c message w).1) ≡ ids (log w) ++ c ∷ [])
  unfolding record_failure
  failure_lem event title body c message w = rw (laws.writes _ w, record_failure) (refl, added _ w)

  answer_lem :
      (event title body : String) (c : ℕ) (b : Bool) (w : W)
      → ((record_answer O event title body c b w).0 ≡ true)
        × (ids (log (record_answer O event title body c b w).1) ≡ ids (log w) ++ c ∷ [])
  unfolding record_answer
  answer_lem event title body c b w = rw (laws.writes _ w, record_answer) (refl, added _ w)

  send_to_channel_lem :
      (event title body : String) (c : Channel) (w : W)
      → ((send_to_channel O event title body c w).0 ≡ true)
        × (ids (log (send_to_channel O event title body c w).1) ≡ ids (log w) ++ c.id ∷ [])
  unfolding send_to_channel
  send_to_channel_lem event title body c w =
      let w' = (O.notify c.url title body w).1 in
      let same = ap (λ l. ids l ++ c.id ∷ []) (laws.notifies c.url title body w) in
      elim (Notified-cases (O.notify c.url title body w).0) [
        | inl (b, e) ↦
            let one = answer_lem event title body c.id b w' in
            rw (e, send_to_channel) (one.0, one.1 ∙ same)
        | inr (m, e) ↦
            let one = failure_lem event title body c.id m w' in
            rw (e, send_to_channel) (one.0, one.1 ∙ same)
      ]

  -- Where no write of the history raises, sending to a list of channels does not raise, and the
  -- history gains one entry for each channel, in their order, whatever Apprise answers or raises.
  pub records_every_channel :
      (event title body : String) (cs : List Channel) (w : W)
      → ((send_each O event title body cs w).0 ≡ true)
        × (ids (log (send_each O event title body cs w).1) ≡ ids (log w) ++ channel_ids cs)
  unfolding send_each
  records_every_channel event title body [] w = (refl, sym (append-nil (ids (log w))))
  records_every_channel event title body (c ∷ cs) w =
      let one = send_to_channel_lem event title body c w in
      let rest =
        records_every_channel event title body cs (send_to_channel O event title body c w).1 in
      rw (one.0, send_each)
        (
          rest.0,
          rest.1
              ∙ ap (λ l. l ++ channel_ids cs) one.1
              ∙ append_assoc (ids (log w)) (c.id ∷ []) (channel_ids cs),
        )
