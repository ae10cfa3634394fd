-- ===== src/Security/RateLimiter/Refusals.antt =====
-- When a check refuses.
use log_librarian.Prelude.{
  ℕ, ◌≡◌, refl, String, Bool, true, false, not, All, ◌∙◌, str_eq, ◌∷◌, if◌then◌else◌, ◌&&◌, Option,
  none, some, List, [], arith, ltb, length, Option-cases, Bool-cases, inl, inr,
}
use log_librarian.Prelude.Dict.{lookup, delete, get_or, get_or-insert}
use log_librarian.Security.RateLimiter.{
  RateLimitConfig, RateLimitResult, new_limiter, RateLimiter, ten_seconds, minute, hour, recent,
  cleanup_old_requests, check_limits, check_requests, check,
}
use log_librarian.Security.RateLimiter.Step.{allows, refused_from-refuses}

-- A cooldown of the identifier that has not ended.
abbrev pub cooling : Option ℕ → ℕ → Bool
cooling none now = false
cooling (some until) now = ltb now until

-- Each of the three windows of the identifier has room.
abbrev pub has_room : RateLimiter → String → ℕ → Bool
has_room l k now =
    ltb (length (recent ten_seconds now k l.burst_requests)) l.config.burst_limit
    && ltb (length (recent minute now k l.minute_requests)) l.config.requests_per_minute
    && ltb (length (recent hour now k l.hour_requests)) l.config.requests_per_hour

limits_decide :
    (l : RateLimiter) (k : String) (now : ℕ) (m h b : List ℕ)
    → allows (check_limits l k now m h b).1 ≡ (
        ltb (length b) l.config.burst_limit
        && ltb (length m) l.config.requests_per_minute
        && ltb (length h) l.config.requests_per_hour)
unfolding check_limits
limits_decide l k now m h b =
    ground
      (arith, refused_from-refuses b ten_seconds "burst", refused_from-refuses m minute "minute")

requests_decide :
    (l : RateLimiter) (k : String) (now : ℕ) → allows (check_requests l k now).1 ≡ has_room l k now
unfolding check_requests cleanup_old_requests
requests_decide l k now = limits_decide (cleanup_old_requests l k now) k now _ _ _

-- A request is admitted exactly when its identifier has no cooldown that is still running, and the
-- requests recorded for it in each of the three windows are below that window's limit.
pub check_decides :
    (l : RateLimiter) (k : String) (now : ℕ)
    → allows (check l k now).1 ≡ (not (cooling (lookup k l.cooldowns) now) && has_room l k now)
unfolding check
check_decides l k now = elim (Option-cases (lookup k l.cooldowns)) [
  | inl free ↦ rw (free, check) (requests_decide l k now)
  | inr (until, e) ↦
      rw (e, check)
        (elim (Bool-cases (ltb now until)) [
          | inl waiting ↦ rw waiting refl
          | inr over ↦
              rw over (requests_decide (record l { cooldowns = delete k l.cooldowns }) k now)
        ])
]

if_same : {A : Type 0} (b : Bool) (a : A) → (if b then a else a) ≡ a
if_same true a = refl
if_same false a = refl

-- What a run of checks answers, none for each that raises.
unfoldable pub answers : RateLimiter → List (String × ℕ) → List (Option RateLimitResult)
answers l [] = []
answers l ((k, now) ∷ rs) = let (l', r) = check l k now in r ∷ answers l' rs

-- A limiter with a burst limit of 0 that has no cooldowns and no requests in its shortest window.
abbrev IsUnused : RateLimiter → Type 0
IsUnused l =
    (l.config.burst_limit ≡ 0)
    × ((k : String) → lookup k l.cooldowns ≡ none)
    × ((k : String) → get_or k l.burst_requests [] ≡ [])

IsUnused-cleanup_old_requests :
    (l : RateLimiter) (k : String) (now : ℕ) → IsUnused l → IsUnused (cleanup_old_requests l k now)
unfolding cleanup_old_requests
IsUnused-cleanup_old_requests l k now u = (
  u.0,
  u.1,
  λ j.
      get_or-insert k j (recent ten_seconds now k l.burst_requests) [] l.burst_requests
      ∙ rw (u.2 k, u.2 j) (if_same (str_eq k j) []),
)

check-unused :
    (l : RateLimiter) (k : String) (now : ℕ)
    → IsUnused l
    → check l k now ≡ (cleanup_old_requests l k now, none)
unfolding check cleanup_old_requests
check-unused l k now u = ground (arith, u.0, u.1 k, u.2 k)

answers-none :
    (l : RateLimiter) (rs : List (String × ℕ)) → IsUnused l → All (λ r. r ≡ none) (answers l rs)
unfolding answers
answers-none l [] u = tt
answers-none l ((k, now) ∷ rs) u =
    rw (check-unused l k now u) (
      refl,
      answers-none (cleanup_old_requests l k now) rs (IsUnused-cleanup_old_requests l k now u),
    )

-- With a burst limit of 0, a limiter refuses nothing and admits nothing: from a fresh limiter on,
-- every check of any run of requests, by any identifiers at any times, raises.
pub zero_burst_limit_raises :
    (config : RateLimitConfig) (rs : List (String × ℕ))
    → config.burst_limit ≡ 0
    → All (λ r. r ≡ none) (answers (new_limiter config) rs)
unfolding lookup get_or
zero_burst_limit_raises config rs zero =
    answers-none (new_limiter config) rs (zero, λ k. refl, λ k. refl)
