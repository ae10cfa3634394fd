-- ===== src/Security/RateLimiter.antt =====
-- `RateLimiter` of librarian/ai_security.py. A time is a clock reading in microseconds; each method
-- that reads the clock takes its reading as an argument.
mod Windows
mod Step
mod Limits
mod Refusals
mod Examples
use log_librarian.Prelude.{
  ℕ, zero, suc, ◌+◌, ◌-◌, ◌*◌, min, String, Bool, true, false, Option, none, some, List, [], ◌∷◌,
  ◌++◌, ltb, leb, length, keep_if, if◌then◌else◌,
}
use log_librarian.Prelude.Dict.{Dict, lookup, insert, delete, get_or, contains}

abbrev pub seconds : ℕ → ℕ
seconds n = n * 1000000

abbrev pub ten_seconds : ℕ
ten_seconds = seconds 10

abbrev pub minute : ℕ
minute = seconds 60

abbrev pub hour : ℕ
hour = seconds 3600

pub record RateLimitConfig : Type 0 where
  pub requests_per_minute : ℕ
  pub requests_per_hour : ℕ
  pub burst_limit : ℕ
  pub cooldown_seconds : ℕ

abbrev pub default_config : RateLimitConfig
default_config = record {
  requests_per_minute = 30;
  requests_per_hour = 500;
  burst_limit = 5;
  cooldown_seconds = 60;
}

pub record RateLimitResult : Type 0 where
  pub allowed : Bool
  pub remaining : ℕ
  pub reset_at : ℕ
  pub limit_type : String

pub record RateLimiter : Type 0 where
  pub config : RateLimitConfig
  pub minute_requests : Dict (List ℕ)
  pub hour_requests : Dict (List ℕ)
  pub burst_requests : Dict (List ℕ)
  pub cooldowns : Dict ℕ

-- `__init__`
abbrev pub new_limiter : RateLimitConfig → RateLimiter
new_limiter config = record {
  config = config;
  minute_requests = [];
  hour_requests = [];
  burst_requests = [];
  cooldowns = [];
}

-- `t > now - window`
abbrev pub within : ℕ → ℕ → ℕ → Bool
within window now t = ltb now (t + window)

-- The requests of an identifier that are left of a `defaultdict` of lists.
abbrev pub recent : ℕ → ℕ → String → Dict (List ℕ) → List ℕ
recent window now identifier d = keep_if (within window now) (get_or identifier d [])

-- `_cleanup_old_requests`
unfoldable pub cleanup_old_requests : RateLimiter → String → ℕ → RateLimiter
cleanup_old_requests l identifier now = record l {
  minute_requests =
      insert identifier (recent minute now identifier l.minute_requests) l.minute_requests;
  hour_requests = insert identifier (recent hour now identifier l.hour_requests) l.hour_requests;
  burst_requests =
      insert identifier (recent ten_seconds now identifier l.burst_requests) l.burst_requests;
}

abbrev pub refused : ℕ → String → RateLimitResult
refused reset_at limit_type = record {
  allowed = false;
  remaining = 0;
  reset_at = reset_at;
  limit_type = limit_type;
}

-- `requests[0] + window`; an `IndexError` on an empty list is `none`.
unfoldable pub refused_from : List ℕ → ℕ → String → Option RateLimitResult
refused_from [] window limit_type = none
refused_from (t ∷ ts) window limit_type = some (refused (t + window) limit_type)

-- The appends of an admitted request, and its result.
unfoldable pub admit : RateLimiter → String → ℕ → List ℕ → List ℕ → List ℕ → RateLimiter
admit l identifier now m h b = record l {
  minute_requests = insert identifier (m ++ now ∷ []) l.minute_requests;
  hour_requests = insert identifier (h ++ now ∷ []) l.hour_requests;
  burst_requests = insert identifier (b ++ now ∷ []) l.burst_requests;
}

unfoldable pub admitted : RateLimitConfig → ℕ → ℕ → ℕ → RateLimitResult
admitted config now minute_count hour_count = record {
  allowed = true;
  remaining =
      min (config.requests_per_minute - minute_count - 1)
        (config.requests_per_hour - hour_count - 1);
  reset_at = now + minute;
  limit_type = "";
}

-- `check` behind its test for a cooldown and the cleanup; the lists are the identifier's requests.
unfoldable pub check_limits :
    RateLimiter → String → ℕ → List ℕ → List ℕ → List ℕ → RateLimiter × Option RateLimitResult
unfolding refused_from admit admitted
check_limits l identifier now m h b =
    if leb l.config.burst_limit (length b)
    then (l, refused_from b ten_seconds "burst")
    else if leb l.config.requests_per_minute (length m)
    then (l, refused_from m minute "minute")
    else if leb l.config.requests_per_hour (length h)
    then (
      record l {
        cooldowns = insert identifier (now + seconds l.config.cooldown_seconds) l.cooldowns;
      },
      some (refused (now + seconds l.config.cooldown_seconds) "hour"),
    )
    else (admit l identifier now m h b, some (admitted l.config now (length m) (length h)))

unfoldable pub check_requests : RateLimiter → String → ℕ → RateLimiter × Option RateLimitResult
unfolding cleanup_old_requests check_limits
check_requests l identifier now =
    check_limits (cleanup_old_requests l identifier now) identifier now
      (recent minute now identifier l.minute_requests) (recent hour now identifier l.hour_requests)
      (recent ten_seconds now identifier l.burst_requests)

-- `check`
unfoldable pub check : RateLimiter → String → ℕ → RateLimiter × Option RateLimitResult
unfolding check_requests
check l identifier now = elim (lookup identifier l.cooldowns) [
  | none ↦ check_requests l identifier now
  | some until ↦
      if ltb now until
      then (l, some (refused until "cooldown"))
      else check_requests (record l { cooldowns = delete identifier l.cooldowns }) identifier now
]

pub record Usage : Type 0 where
  pub burst_count : ℕ
  pub minute_count : ℕ
  pub hour_count : ℕ
  pub in_cooldown : Bool

-- `get_usage`, less the limits that it copies from the configuration.
unfoldable pub get_usage : RateLimiter → String → ℕ → RateLimiter × Usage
unfolding cleanup_old_requests
get_usage l identifier now = (
  cleanup_old_requests l identifier now,
  record {
    burst_count = length (recent ten_seconds now identifier l.burst_requests);
    minute_count = length (recent minute now identifier l.minute_requests);
    hour_count = length (recent hour now identifier l.hour_requests);
    in_cooldown = contains identifier l.cooldowns;
  },
)
