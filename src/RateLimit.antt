-- ===== src/RateLimit.antt =====
-- app/core/rate_limit.py: the fixed-window request limiter, one window for each key.
-- The clock is an argument of each call. A reading of the clock is a number of ticks, `scale` of
-- them to the second, so that a second's fractions are there and `int(…)` cuts them off.
pub mod Branches
pub mod Traces
mod Tests
use syn.Common.{
  ℕ, zero, suc, ◌+◌, ◌-◌, ◌*◌, ◌/◌, ◌%◌, String, Bool, true, false, Option, none, some, List, [],
  ◌∷◌, ltb, leb, ◌==◌, if◌then◌else◌,
}
use syn.Common.Int.{ℤ, pos, negsuc}
use syn.Common.Dict
use syn.Common.Dict.{Dict}

pub record RateLimitResult : Type 0 where
  pub allowed : Bool
  pub remaining : ℤ
  pub retry_after_seconds : ℕ

-- The pair `(window_start, count)` of a key.
pub record Window : Type 0 where
  pub start : ℕ
  pub count : ℕ

pub record RateLimiter : Type 0 where
  pub scale : ℕ
  pub window_seconds : ℕ
  pub windows : Dict Window

-- The length of a window in ticks.
abbrev pub span : RateLimiter → ℕ
span l = l.window_seconds * l.scale

unfoldable pub init : ℕ → ℕ → RateLimiter
init scale window_seconds = record { scale = scale; window_seconds = window_seconds; windows = [] }

-- now - (now % window_seconds)
unfoldable pub window_start : ℕ → ℕ → ℕ
window_start window now = now - now % window

-- The recorded count, where a window of another time counts as none.
unfoldable pub count_in : Option Window → ℕ → ℕ
count_in none start = 0
count_in (some w) start = if w.start == start then w.count else 0

-- int(window_start + window_seconds - now), and at least 1
unfoldable pub retry_after : RateLimiter → ℕ → ℕ → ℕ
retry_after l start now = let r = (start + span l - now) / l.scale in if ltb r 1 then 1 else r

admit : RateLimiter → String → ℕ → ℕ → ℕ → RateLimiter × RateLimitResult
admit l key start n limit = (
  record l { windows = Dict.put l.windows key (record { start = start; count = n }) },
  record { allowed = true; remaining = pos (limit - n); retry_after_seconds = 0 },
)

-- The branches of `check` once the limit is positive; `current` is the key's window, if any.
decide_window : RateLimiter → String → ℕ → ℕ → Option Window → RateLimiter × RateLimitResult
unfolding admit window_start retry_after
decide_window l key limit now none = admit l key (window_start (span l) now) 1 limit
decide_window l key limit now (some current) =
    if current.start == window_start (span l) now
    then (if leb limit current.count
        then (
          l,
          record {
            allowed = false;
            remaining = pos 0;
            retry_after_seconds = retry_after l (window_start (span l) now) now;
          },
        )
        else admit l key (window_start (span l) now) (current.count + 1) limit)
    else admit l key (window_start (span l) now) 1 limit

unfoldable pub check : RateLimiter → ℕ → String → ℤ → RateLimiter × RateLimitResult
unfolding decide_window
check l now key (negsuc _) =
    (l, record { allowed = true; remaining = negsuc 0; retry_after_seconds = 0 })
check l now key (pos zero) =
    (l, record { allowed = true; remaining = negsuc 0; retry_after_seconds = 0 })
check l now key (pos (suc n)) = decide_window l key (suc n) now (Dict.get l.windows key)

unfoldable pub reset : RateLimiter → RateLimiter
reset l = record l { windows = [] }

unfoldable pub current_count : RateLimiter → ℕ → String → ℕ
unfolding count_in window_start
current_count l now key = count_in (Dict.get l.windows key) (window_start (span l) now)
