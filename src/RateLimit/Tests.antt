-- ===== src/RateLimit/Tests.antt =====
-- Runs of app/core/rate_limit.py's limiter, and instances of its theorems.
use syn.Common.{◌≤◌, ◌≡◌, refl, false, List, [], ◌∷◌, arith}
use syn.Common.Int.{pos}
use syn.Common.Dict
use syn.RateLimit.{init, check, current_count}
use syn.RateLimit.Traces.{Call, admitted, admitted-le-limit}

-- Ten ticks to the second, a window of a minute; three calls in one window at a limit of two.
abbrev busy : List Call
busy =
    record { now = 610; key = "a"; limit = pos 2 }
    ∷ record { now = 615; key = "a"; limit = pos 2 }
    ∷ record { now = 630; key = "b"; limit = pos 1 }
    ∷ record { now = 700; key = "a"; limit = pos 2 }
    ∷ []

busy_admits_two : admitted (init 10 60) "a" 600 busy ≡ 2
unfolding admitted init check current_count Dict.get Dict.put
busy_admits_two = refl

third_is_refused :
    (check (check (check (init 10 60) 610 "a" (pos 2)).0 615 "a" (pos 2)).0 700 "a" (pos 2)).1
    ≡ record { allowed = false; remaining = pos 0; retry_after_seconds = 50 }
unfolding init check Dict.get Dict.put
third_is_refused = refl

admitted-le-limit_example : admitted (init 10 60) "a" 600 busy ≤ 2
admitted-le-limit_example = admitted-le-limit 10 60 2 "a" 600 0 busy (omega arith) (
  λ _. (1, refl, omega arith),
  (λ _. (1, refl, omega arith), (λ _. (0, refl, omega arith), (λ _. (1, refl, omega arith), tt))),
)
