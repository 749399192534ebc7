-- ===== src/Usage.antt =====
-- app/services/usage.py: the check of the limits before a request, and the usage records.
-- A reading of the service's clock is a number of ticks since an epoch at midnight UTC, `day` of
-- them to the day, and the table of usage records is the list of its rows in order of insertion.
-- Token counts, which a backend reports, are taken to be natural numbers.
mod Records
pub mod Precheck
pub mod Quota
pub mod Summary
mod Tests
unfoldable pub use Records.*
use syn.Common.{
  ℕ, zero, suc, ◌+◌, ◌-◌, ◌%◌, String, Bool, true, false, ◌&&◌, ◌||◌, not, Option, none, some, List,
  [], ◌∷◌, ◌++◌, ltb, leb, str_eq, if◌then◌else◌, length, count_if, select,
}
use Prim.Native.String.{◌++◌ as concat}
use syn.Common.Int.{ℤ, pos, negsuc}
use syn.Errors.{
  make, rate_limit_exceeded, request_quota_exceeded, token_quota_exceeded, ErrorClass, Exn, gateway,
  Result, ok, err, ◌>>◌, reject_if,
}
use syn.Policy.{Limits, Defaults, EffectivePolicy, resolve_policy}
use syn.RateLimit.{RateLimiter, RateLimitResult, check}

pub record UsageSummary : Type 0 where
  pub requests : ℕ
  pub successful_requests : ℕ
  pub failed_requests : ℕ
  pub cancelled_requests : ℕ
  pub rejected_requests : ℕ
  pub timed_out_requests : ℕ
  pub requests_with_unknown_usage : ℕ
  pub prompt_tokens : ℕ
  pub completion_tokens : ℕ
  pub total_tokens : ℕ

pub record QuotaCheckResult : Type 0 where
  pub allowed : Bool
  pub rate_limit : Option RateLimitResult

pub record UsageService : Type 0 where
  pub rate_limiter : RateLimiter
  pub defaults : Defaults
  pub day : ℕ

-- What the clocks show during a precheck: the limiter's, and the service's in each of its queries.
pub record Readings : Type 0 where
  pub limiter : ℕ
  pub requests : ℕ
  pub tokens : ℕ

unfoldable pub effective_policy : UsageService → ApiKey → Client → EffectivePolicy
effective_policy s api_key client = resolve_policy api_key.limits client.limits s.defaults

-- datetime(now.year, now.month, now.day)
unfoldable pub day_start : ℕ → ℕ → ℕ
day_start day now = now - now % day

unfoldable pub of_key_today : UsageService → ℕ → String → UsageRecord → Bool
unfolding in_period
of_key_today s now id r =
    column_is id r.api_key_id && in_period (day_start s.day now) (day_start s.day now + s.day) r

unfoldable pub count_requests_today : UsageService → ℕ → List UsageRecord → String → ℕ
unfolding of_key_today
count_requests_today s now table id = count_if (of_key_today s now id) table

unfoldable pub sum_tokens_today : UsageService → ℕ → List UsageRecord → String → ℕ
unfolding of_key_today sum_column
sum_tokens_today s now table id =
    sum_column (λ r. r.total_tokens) (select (of_key_today s now id) table)

abbrev pub rate_limited : Exn
rate_limited = gateway (make rate_limit_exceeded (some "rate_limit_exceeded") (some 429) none)

abbrev pub requests_exceeded : Exn
requests_exceeded =
    gateway (make request_quota_exceeded (some "request_quota_exceeded") (some 429) none)

abbrev pub tokens_exceeded : Exn
tokens_exceeded = gateway (make token_quota_exceeded (some "token_quota_exceeded") (some 429) none)

-- if limit > 0 and used >= limit: raise e
unfoldable pub check_quota : ℤ → ℕ → Exn → Result (Unit {0})
check_quota (pos zero) used e = ok tt
check_quota (pos (suc n)) used e = if leb (suc n) used then err e else ok tt
check_quota (negsuc n) used e = ok tt

-- f"rpm:{api_key.id}"
abbrev pub rpm_key : ApiKey → String
rpm_key api_key = concat "rpm:" api_key.id

-- The checks of `precheck` after that of the rate.
unfoldable pub check_quotas :
    UsageService
    → Readings
    → List UsageRecord
    → ApiKey
    → Client
    → RateLimitResult
    → Result QuotaCheckResult
unfolding check_quota effective_policy
check_quotas s now table api_key client rate =
    check_quota (effective_policy s api_key client).requests_per_day
      (count_requests_today s now.requests table api_key.id) requests_exceeded
    >> (check_quota (effective_policy s api_key client).tokens_per_day
          (sum_tokens_today s now.tokens table api_key.id) tokens_exceeded
        >> ok (record { allowed = true; rate_limit = some rate }))

unfoldable pub precheck :
    UsageService
    → Readings
    → List UsageRecord
    → ApiKey
    → Client
    → UsageService × Result QuotaCheckResult
unfolding check_quotas
precheck s now table api_key client =
    let (limiter, rate) =
      check s.rate_limiter now.limiter (rpm_key api_key)
        (effective_policy s api_key client).requests_per_minute in
    (
      record s { rate_limiter = limiter },
      if rate.allowed then check_quotas s now table api_key client rate else err rate_limited,
    )

-- The filter of `summarize` by key, or else by client.
unfoldable pub in_scope : Option String → Option String → UsageRecord → Bool
in_scope (some key) client r = column_is key r.api_key_id
in_scope none (some client) r = column_is client r.client_id
in_scope none none r = true

unfoldable pub has_status : Outcome → UsageRecord → Bool
has_status o r = same_outcome r.status o

abbrev is_null : Option ℕ → Bool
is_null none = true
is_null (some n) = false

unfoldable pub has_unknown_usage : UsageRecord → Bool
has_unknown_usage r =
    is_null r.prompt_tokens || is_null r.completion_tokens || is_null r.total_tokens

-- What `summarize` computes of the rows that it has fetched.
unfoldable pub summary : List UsageRecord → UsageSummary
unfolding has_status has_unknown_usage sum_column
summary rows = record {
  requests = length rows;
  successful_requests = count_if (has_status completed) rows;
  failed_requests = count_if (has_status failed) rows;
  cancelled_requests = count_if (has_status cancelled) rows;
  rejected_requests = count_if (has_status rejected) rows;
  timed_out_requests = count_if (has_status timed_out) rows;
  requests_with_unknown_usage = count_if has_unknown_usage rows;
  prompt_tokens = sum_column (λ r. r.prompt_tokens) rows;
  completion_tokens = sum_column (λ r. r.completion_tokens) rows;
  total_tokens = sum_column (λ r. r.total_tokens) rows;
}

-- since or day_start
unfoldable pub or_else : Option ℕ → ℕ → ℕ
or_else none d = d
or_else (some n) d = n

unfoldable pub summarize :
    UsageService
    → ℕ
    → List UsageRecord
    → Option String
    → Option String
    → Option ℕ
    → Option ℕ
    → UsageSummary
unfolding or_else in_period in_scope summary
summarize s now table api_key_id client_id since until = summary (
    select (in_scope api_key_id client_id) (
      select
        (in_period (or_else since (day_start s.day now))
          (or_else until (day_start s.day now + s.day)))
        table))
