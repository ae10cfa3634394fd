-- ===== src/Security/RateLimiter/Step.antt =====
-- What one check does to the three windows of its identifier.
use log_librarian.Prelude.{
  str_eq, ℕ, ◌<◌, ◌≡◌, refl, String, Bool, true, false, Option, none, some, List, [], ◌∷◌, ◌++◌,
  arith, ltb, leb, length, if◌then◌else◌, Bool-cases, inl, inr, Option-cases,
}
use mathlib.Core.List.{append-nil}
use log_librarian.Prelude.Dict.{get_or-insert, Dict, lookup, insert, delete, get_or}
use log_librarian.Security.RateLimiter.{
  admit, refused_from, RateLimiter, RateLimitResult, minute, hour, ten_seconds, recent, check,
  check_requests, cleanup_old_requests,
}

abbrev pub allows : Option RateLimitResult → Bool
allows none = false
allows (some r) = r.allowed

-- The requests of every identifier are as they were.
pub record Unchanged (l l' : RateLimiter) : Type 0 where
  pub config : l'.config ≡ l.config
  pub minutes : l'.minute_requests ≡ l.minute_requests
  pub hours : l'.hour_requests ≡ l.hour_requests
  pub bursts : l'.burst_requests ≡ l.burst_requests

-- The requests of the identifier are cleaned, and `extra` is added to each list.
pub record Cleaned (l : RateLimiter) (k : String) (now : ℕ) (extra : List ℕ) (l' : RateLimiter)
    : Type 0 where
  pub config : l'.config ≡ l.config
  pub minutes :
      (j : String)
      → get_or j l'.minute_requests [] ≡ (
          if str_eq k j
          then recent minute now k l.minute_requests ++ extra
          else get_or j l.minute_requests [])
  pub hours :
      (j : String)
      → get_or j l'.hour_requests [] ≡ (
          if str_eq k j
          then recent hour now k l.hour_requests ++ extra
          else get_or j l.hour_requests [])
  pub bursts :
      (j : String)
      → get_or j l'.burst_requests [] ≡ (
          if str_eq k j
          then recent ten_seconds now k l.burst_requests ++ extra
          else get_or j l.burst_requests [])

-- Each window of the identifier has room for one more request.
pub record HasRoom (l : RateLimiter) (k : String) (now : ℕ) : Type 0 where
  pub minute_room : length (recent minute now k l.minute_requests) < l.config.requests_per_minute
  pub hour_room : length (recent hour now k l.hour_requests) < l.config.requests_per_hour
  pub burst_room : length (recent ten_seconds now k l.burst_requests) < l.config.burst_limit

-- The three ways in which a check may end.
pub data Checked (l : RateLimiter) (k : String) (now : ℕ) (l' : RateLimiter)
    (r : Option RateLimitResult) : Type 0 where
  in_cooldown : Unchanged l l' → allows r ≡ false → Checked l k now l' r
  over_limit : Cleaned l k now [] l' → allows r ≡ false → Checked l k now l' r
  passed : Cleaned l k now (now ∷ []) l' → HasRoom l k now → allows r ≡ true → Checked l k now l' r

get_or_clean :
    (k j : String) (r : List ℕ) (d : Dict (List ℕ))
    → get_or j (insert k r d) [] ≡ (if str_eq k j then r ++ [] else get_or j d [])
get_or_clean k j r d = simp (append-nil, get_or-insert)

get_or_admit :
    (k j : String) (r extra : List ℕ) (d : Dict (List ℕ))
    → get_or j (insert k (r ++ extra) (insert k r d)) []
      ≡ (if str_eq k j then r ++ extra else get_or j d [])
get_or_admit k j r extra d =
    ground (arith, get_or-insert k j (r ++ extra) [] (insert k r d), get_or-insert k j r [] d)

pub refused_from-refuses :
    (ts : List ℕ) (window : ℕ) (limit_type : String)
    → allows (refused_from ts window limit_type) ≡ false
unfolding refused_from
refused_from-refuses [] window limit_type = refl
refused_from-refuses (t ∷ ts) window limit_type = refl

module _ (l : RateLimiter) (k : String) (now : ℕ) where
  cleanup-Cleaned : Cleaned l k now [] (cleanup_old_requests l k now)
  unfolding cleanup_old_requests
  cleanup-Cleaned = record {
    config = refl;
    minutes = λ j. get_or_clean k j _ l.minute_requests;
    hours = λ j. get_or_clean k j _ l.hour_requests;
    bursts = λ j. get_or_clean k j _ l.burst_requests;
  }

  admit-Cleaned : Cleaned l k now (now ∷ []) (
      admit
        (cleanup_old_requests l k now)
        k
        now
        (recent minute now k l.minute_requests)
        (recent hour now k l.hour_requests)
        (recent ten_seconds now k l.burst_requests))
  unfolding cleanup_old_requests admit
  admit-Cleaned = record {
    config = refl;
    minutes = λ j. get_or_admit k j _ (now ∷ []) l.minute_requests;
    hours = λ j. get_or_admit k j _ (now ∷ []) l.hour_requests;
    bursts = λ j. get_or_admit k j _ (now ∷ []) l.burst_requests;
  }

  config-cleanup : (cleanup_old_requests l k now).config ≡ l.config
  unfolding cleanup_old_requests
  config-cleanup = refl

  check_requests-Checked : Checked l k now (check_requests l k now).0 (check_requests l k now).1
  unfolding check_requests
  check_requests-Checked = elim (Bool-cases (leb l.config.burst_limit (length b))) [
    | inl full ↦ rw full (over_limit cleanup-Cleaned (refused_from-refuses b ten_seconds "burst"))
    | inr burst ↦ rw burst (elim (Bool-cases (leb l.config.requests_per_minute (length m))) [
      | inl full ↦ rw full (over_limit cleanup-Cleaned (refused_from-refuses m minute "minute"))
      | inr per_minute ↦
          rw per_minute (elim (Bool-cases (leb l.config.requests_per_hour (length h))) [
            | inl full ↦ rw full (
                over_limit
                  (record {
                    config = refl;
                    minutes = cleanup-Cleaned.minutes;
                    hours = cleanup-Cleaned.hours;
                    bursts = cleanup-Cleaned.bursts;
                  })
                  refl)
            | inr per_hour ↦ rw per_hour (
                passed admit-Cleaned
                  (record {
                    minute_room = ground arith;
                    hour_room = ground arith;
                    burst_room = ground arith;
                  })
                  refl)
          ])
    ])
  ]
    where
      b : List ℕ
      b = recent ten_seconds now k l.burst_requests

      m : List ℕ
      m = recent minute now k l.minute_requests

      h : List ℕ
      h = recent hour now k l.hour_requests

-- Dropping a cooldown does not matter to the windows.
Checked-drop :
    (l : RateLimiter) (k : String) (now : ℕ) (cooldowns : Dict ℕ) (l' : RateLimiter)
    (r : Option RateLimitResult)
    → Checked (record l { cooldowns = cooldowns }) k now l' r
    → Checked l k now l' r
Checked-drop l k now cooldowns l' r (in_cooldown u a) =
    in_cooldown
      (record { config = u.config; minutes = u.minutes; hours = u.hours; bursts = u.bursts }) a
Checked-drop l k now cooldowns l' r (over_limit u a) =
    over_limit
      (record { config = u.config; minutes = u.minutes; hours = u.hours; bursts = u.bursts }) a
Checked-drop l k now cooldowns l' r (passed u room a) =
    passed (record { config = u.config; minutes = u.minutes; hours = u.hours; bursts = u.bursts })
      (record {
        minute_room = room.minute_room;
        hour_room = room.hour_room;
        burst_room = room.burst_room;
      })
      a

pub check-Checked :
    (l : RateLimiter) (k : String) (now : ℕ) → Checked l k now (check l k now).0 (check l k now).1
unfolding check
check-Checked l k now = elim (Option-cases (lookup k l.cooldowns)) [
  | inl free ↦ rw (free, check) (check_requests-Checked l k now)
  | inr (until, e) ↦
      rw (e, check)
        (elim (Bool-cases (ltb now until)) [
          | inl waiting ↦ rw waiting (
              in_cooldown (record { config = refl; minutes = refl; hours = refl; bursts = refl })
                refl)
          | inr over ↦
              rw over
                (Checked-drop l k now (delete k l.cooldowns) _ _ (check_requests-Checked _ k now))
        ])
]
