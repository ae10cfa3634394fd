-- ===== src/Security/RateLimiter/Examples.antt =====
-- The rate limits at concrete requests, and runs of the code.
use log_librarian.Prelude.{
  All, ◌≤◌, ◌≡◌, refl, not, ◌&&◌, none, List, [], ◌∷◌, arith, length, keep_if,
}
use log_librarian.Prelude.Dict.{lookup, insert, get_or}
use log_librarian.Security.RateLimiter.{
  RateLimiter, RateLimitConfig, default_config, new_limiter, minute, hour, ten_seconds, seconds,
  within, check,
}
use log_librarian.Security.RateLimiter.Step.{allows}
use log_librarian.Security.RateLimiter.Limits.{Request, times, serve, never_over_limit}
use log_librarian.Security.RateLimiter.Refusals.{
  answers, zero_burst_limit_raises, check_decides, cooling, has_room,
}

abbrev asked : List Request
asked =
    ("t:ann", seconds 100)
    ∷ ("t:ann", seconds 101)
    ∷ ("t:bob", seconds 101)
    ∷ ("t:ann", seconds 102)
    ∷ ("t:ann", seconds 103)
    ∷ ("t:ann", seconds 104)
    ∷ ("t:ann", seconds 105)
    ∷ ("t:ann", seconds 110)
    ∷ []

-- The sixth request within ten seconds is refused; one at the end of the window of the first is not.
admitted_times :
    times "t:ann" (serve (new_limiter default_config) [] asked).1
    ≡ seconds 100 ∷ seconds 101 ∷ seconds 102 ∷ seconds 103 ∷ seconds 104 ∷ seconds 110 ∷ []
unfolding serve check insert lookup get_or
admitted_times = refl

never_over_limit_example :
    (length (
        keep_if
          (within ten_seconds (seconds 111))
          (times "t:ann" (serve (new_limiter default_config) [] asked).1))
      ≤ 5)
    × (length (
          keep_if
            (within minute (seconds 111))
            (times "t:ann" (serve (new_limiter default_config) [] asked).1))
        ≤ 30)
    × (length (
          keep_if
            (within hour (seconds 111))
            (times "t:ann" (serve (new_limiter default_config) [] asked).1))
        ≤ 500)
never_over_limit_example = never_over_limit default_config asked (seconds 111) "t:ann" (omega arith)

abbrev blocked : RateLimitConfig
blocked = record default_config { burst_limit = 0 }

zero_burst_limit_raises_example :
    All (λ r. r ≡ none) (answers (new_limiter blocked) (("t:ann", 5) ∷ ("t:bob", 7) ∷ []))
zero_burst_limit_raises_example =
    zero_burst_limit_raises blocked (("t:ann", 5) ∷ ("t:bob", 7) ∷ []) refl

abbrev busy : RateLimiter
busy = (serve (new_limiter default_config) [] asked).0

check_decides_example : allows (check busy "t:ann" (seconds 111)).1 ≡ (
    not (cooling (lookup "t:ann" busy.cooldowns) (seconds 111))
    && has_room busy "t:ann" (seconds 111))
check_decides_example = check_decides busy "t:ann" (seconds 111)
