-- ===== src/Security/RateLimiter/Limits.antt =====
-- No window ever holds more admitted requests than its limit.
use log_librarian.Prelude.{
  ℕ, ◌<◌, ◌≤◌, ◌≡◌, refl, String, Option, List, [], ◌∷◌, ◌++◌, arith, length, keep_if,
  keep_if-append, map, if◌then◌else◌, str_eq, eq_iff, Bool-cases, inl, inr, ◌∙◌,
}
use mathlib.Core.List.{map-append, append-nil}
use log_librarian.Prelude.Dict.{Dict, get_or}
use log_librarian.Security.RateLimiter.{
  RateLimiter, RateLimitConfig, RateLimitResult, new_limiter, minute, hour, ten_seconds, within,
  recent, check,
}
use log_librarian.Security.RateLimiter.Windows.{
  Tracks, Tracks-empty, Tracks-later, Tracks-clean, Tracks-admit,
}
use log_librarian.Security.RateLimiter.Step.{
  allows, Checked, in_cooldown, over_limit, passed, check-Checked,
}

-- A request: who asks, and the clock when the check reads it.
abbrev pub Request : Type 0
Request = String × ℕ

-- The times of the requests of one identifier.
abbrev pub times : String → List Request → List ℕ
times k log = map (λ r. r.1) (keep_if (λ r. str_eq r.0 k) log)

-- The limiter after some checks, and the log of the requests that it admitted, oldest first.
unfoldable pub serve : RateLimiter → List Request → List Request → RateLimiter × List Request
serve l log [] = (l, log)
serve l log ((k, now) ∷ rs) =
    let (l', r) = check l k now in serve l' (if allows r then log ++ (k, now) ∷ [] else log) rs

-- The clock does not go back from `clock` on, over the requests, to `final`.
abbrev pub InOrder : ℕ → List Request → ℕ → Type 0
InOrder clock [] final = clock ≤ final
InOrder clock ((k, now) ∷ rs) final = (clock ≤ now) × InOrder now rs final

-- The three windows of one identifier.
pub record Windows (l : RateLimiter) (log : List Request) (clock : ℕ) (k : String) : Type 0 where
  pub minutes :
      Tracks minute l.config.requests_per_minute clock (get_or k l.minute_requests []) (times k log)
  pub hours :
      Tracks hour l.config.requests_per_hour clock (get_or k l.hour_requests []) (times k log)
  pub bursts :
      Tracks ten_seconds l.config.burst_limit clock (get_or k l.burst_requests []) (times k log)

times-append :
    (k j : String) (now : ℕ) (log : List Request)
    → times j (log ++ (k, now) ∷ []) ≡ (if str_eq k j then times j log ++ now ∷ [] else times j log)
times-append k j now log =
    rw (keep_if-append (λ (r : Request). str_eq r.0 j) log ((k, now) ∷ []))
      (elim (Bool-cases (str_eq k j)) [
        | inl e ↦ rw e (
            map-append (λ (r : Request). r.1) (keep_if (λ (r : Request). str_eq r.0 j) log)
              ((k, now) ∷ []))
        | inr e ↦ rw e (simp append-nil)
      ])

-- One window of identifier `j` over one check of `k`.
window_cleaned :
    (window limit now : ℕ) (k j : String) (d d' : Dict (List ℕ)) (log : List Request)
    → get_or j d' [] ≡ (if str_eq k j then recent window now k d ++ [] else get_or j d [])
    → Tracks window limit now (get_or j d []) (times j log)
    → Tracks window limit now (get_or j d' []) (times j log)
window_cleaned window limit now k j d d' log e t = elim (Bool-cases (str_eq k j)) [
  | inl same ↦
      let p : k ≡ j = (eq_iff k j).0 same in
      let e' = rw (same, p) at e in
      rw (e', append-nil) (Tracks-clean window limit now (get_or j d []) (times j log) t)
  | inr other ↦ rw (rw other at e) t
]

window_admitted :
    (window limit now : ℕ) (k j : String) (d d' : Dict (List ℕ)) (log : List Request)
    → get_or j d' [] ≡ (if str_eq k j then recent window now k d ++ now ∷ [] else get_or j d [])
    → length (recent window now k d) < limit
    → Tracks window limit now (get_or j d []) (times j log)
    → Tracks window limit now (get_or j d' []) (times j (log ++ (k, now) ∷ []))
window_admitted window limit now k j d d' log e room t = elim (Bool-cases (str_eq k j)) [
  | inl same ↦
      let p : k ≡ j = (eq_iff k j).0 same in
      let e' = rw (same, p) at e in
      let room' : length (recent window now j d) < limit = rw p at room in
      let log' = rw same at (times-append k j now log) in
      rw (e', log') (Tracks-admit window limit now (get_or j d []) (times j log) t room')
  | inr other ↦ rw (rw other at e, rw other at (times-append k j now log)) t
]

-- Each window moves on over a check that leaves the requests alone.
check-Windows :
    (l l' : RateLimiter) (log : List Request) (k j : String) (now : ℕ) (r : Option RateLimitResult)
    → Checked l k now l' r
    → Windows l log now j
    → Windows l' (if allows r then log ++ (k, now) ∷ [] else log) now j
check-Windows l l' log k j now r (in_cooldown u no_entry) w = rw no_entry (record {
  minutes = rw (u.config, u.minutes) w.minutes;
  hours = rw (u.config, u.hours) w.hours;
  bursts = rw (u.config, u.bursts) w.bursts;
})
check-Windows l l' log k j now r (over_limit c no_entry) w = rw no_entry (record {
  minutes =
      rw c.config (
        window_cleaned _ _ now k j l.minute_requests l'.minute_requests log (c.minutes j)
          w.minutes);
  hours =
      rw c.config
        (window_cleaned _ _ now k j l.hour_requests l'.hour_requests log (c.hours j) w.hours);
  bursts =
      rw c.config
        (window_cleaned _ _ now k j l.burst_requests l'.burst_requests log (c.bursts j) w.bursts);
})
check-Windows l l' log k j now r (passed c room entry) w = rw entry (record {
  minutes = rw c.config (
      window_admitted _ _ now k j l.minute_requests l'.minute_requests log (c.minutes j)
        room.minute_room w.minutes);
  hours = rw c.config (
      window_admitted _ _ now k j l.hour_requests l'.hour_requests log (c.hours j) room.hour_room
        w.hours);
  bursts = rw c.config (
      window_admitted _ _ now k j l.burst_requests l'.burst_requests log (c.bursts j)
        room.burst_room w.bursts);
})

config-Checked :
    (l l' : RateLimiter) (k : String) (now : ℕ) (r : Option RateLimitResult)
    → Checked l k now l' r
    → l'.config ≡ l.config
config-Checked l l' k now r (in_cooldown u _) = u.config
config-Checked l l' k now r (over_limit c _) = c.config
config-Checked l l' k now r (passed c _ _) = c.config

config-serve : (l : RateLimiter) (log rs : List Request) → (serve l log rs).0.config ≡ l.config
unfolding serve
config-serve l log [] = refl
config-serve l log ((k, now) ∷ rs) =
    config-serve (check l k now).0 _ rs ∙ config-Checked l _ k now _ (check-Checked l k now)

Windows-later :
    (l : RateLimiter) (log : List Request) (clock now : ℕ) (j : String)
    → clock ≤ now
    → Windows l log clock j
    → Windows l log now j
Windows-later l log clock now j le w = record {
  minutes = Tracks-later minute _ clock now _ _ le w.minutes;
  hours = Tracks-later hour _ clock now _ _ le w.hours;
  bursts = Tracks-later ten_seconds _ clock now _ _ le w.bursts;
}

serve-Windows :
    (l : RateLimiter) (log rs : List Request) (clock final : ℕ)
    → InOrder clock rs final
    → ((j : String) → Windows l log clock j)
    → (j : String) → Windows (serve l log rs).0 (serve l log rs).1 final j
unfolding serve
serve-Windows l log [] clock final o w j = Windows-later l log clock final j o (w j)
serve-Windows l log ((k, now) ∷ rs) clock final o w j =
    serve-Windows (check l k now).0 _ rs now final o.1
      (λ i.
        check-Windows l _ log k i now _ (check-Checked l k now)
          (Windows-later l log clock now i o.0 (w i)))
      j

-- Serve any requests by any identifiers with a fresh limiter, the clock not going back. Whatever is
-- the clock at the end, the requests of an identifier that were admitted in the last 10 seconds, the
-- last minute and the last hour (times `t` with `final < t + window`) are no more than
-- `burst_limit`, `requests_per_minute` and `requests_per_hour`.
pub never_over_limit :
    (config : RateLimitConfig) (rs : List Request) (final : ℕ) (k : String)
    → InOrder 0 rs final
    → (length (keep_if (within ten_seconds final) (times k (serve (new_limiter config) [] rs).1))
        ≤ config.burst_limit)
      × (length (keep_if (within minute final) (times k (serve (new_limiter config) [] rs).1))
          ≤ config.requests_per_minute)
      × (length (keep_if (within hour final) (times k (serve (new_limiter config) [] rs).1))
          ≤ config.requests_per_hour)
never_over_limit config rs final k o =
    let w =
      serve-Windows (new_limiter config) [] rs 0 final o
        (λ j.
          unfold get_or in
          record {
            minutes = Tracks-empty minute config.requests_per_minute 0;
            hours = Tracks-empty hour config.requests_per_hour 0;
            bursts = Tracks-empty ten_seconds config.burst_limit 0;
          })
        k in
    let same = config-serve (new_limiter config) [] rs in
    (
      rw same at (w.bursts.bounded final (omega arith)),
      rw same at (w.minutes.bounded final (omega arith)),
      rw same at (w.hours.bounded final (omega arith)),
    )
