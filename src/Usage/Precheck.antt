-- ===== src/Usage/Precheck.antt =====
-- What the precheck of app/services/usage.py decides, on every branch.
use syn.Common.{
  ℕ, zero, suc, ◌≤◌, ◌<◌, ◌≡◌, refl, ◌⊎◌, inl, inr, Bool, true, false, some, List, arith,
  if◌then◌else◌,
}
use syn.Common.Int.{ℤ, pos, negsuc, pos_part}
use syn.Errors.{Exn, Result, ok, err}
use syn.Policy.{EffectivePolicy}
use syn.RateLimit.{RateLimitResult, check}
use syn.Usage.{
  UsageService, UsageRecord, ApiKey, Client, Readings, QuotaCheckResult, effective_policy, rpm_key,
  count_requests_today, sum_tokens_today, check_quota, check_quotas, precheck, rate_limited,
  requests_exceeded, tokens_exceeded,
}

-- A limit that is not positive is no limit; a positive one leaves room below it.
abbrev pub HasRoom : ℤ → ℕ → Type 0
HasRoom limit used = (pos_part limit ≡ 0) ⊎ (used < pos_part limit)

abbrev pub IsUsedUp : ℤ → ℕ → Type 0
IsUsedUp limit used = (0 < pos_part limit) × (pos_part limit ≤ used)

abbrev Checked : ℤ → ℕ → Exn → Result (Unit {0}) → Type 0
Checked limit used e r = ((r ≡ ok tt) × HasRoom limit used) ⊎ ((r ≡ err e) × IsUsedUp limit used)

check_quota-Checked :
    (limit : ℤ) (used : ℕ) (e : Exn) → Checked limit used e (check_quota limit used e)
unfolding check_quota
check_quota-Checked (pos zero) used e = inl (refl, inl refl)
check_quota-Checked (pos (suc n)) used e = ground arith
check_quota-Checked (negsuc n) used e = inl (refl, inl refl)

-- The four ways in which a precheck ends, in the order of its checks.
abbrev pub Verdict : EffectivePolicy → RateLimitResult → ℕ → ℕ → Result QuotaCheckResult → Type 0
Verdict policy rate requests tokens r =
    ((r ≡ err rate_limited) × (rate.allowed ≡ false))
    ⊎ ((r ≡ err requests_exceeded)
        × (rate.allowed ≡ true)
        × IsUsedUp policy.requests_per_day requests)
    ⊎ ((r ≡ err tokens_exceeded)
        × (rate.allowed ≡ true)
        × HasRoom policy.requests_per_day requests
        × IsUsedUp policy.tokens_per_day tokens)
    ⊎ ((r ≡ ok (record { allowed = true; rate_limit = some rate }))
        × (rate.allowed ≡ true)
        × HasRoom policy.requests_per_day requests
        × HasRoom policy.tokens_per_day tokens)

module _ (s : UsageService) (now : Readings) (table : List UsageRecord) (key : ApiKey)
    (client : Client) where
  abbrev policy : EffectivePolicy
  policy = effective_policy s key client

  abbrev rate : RateLimitResult
  rate = (check s.rate_limiter now.limiter (rpm_key key) policy.requests_per_minute).1

  check_quotas-Verdict :
      (r : RateLimitResult)
      → r.allowed ≡ true
      → Verdict policy r
          (count_requests_today s now.requests table key.id)
          (sum_tokens_today s now.tokens table key.id)
          (check_quotas s now table key client r)
  unfolding check_quotas
  check_quotas-Verdict r h =
      elim (check_quota-Checked policy.requests_per_day
        (count_requests_today s now.requests table key.id) requests_exceeded) [
          | inr (e, full) ↦ rw e (inr (inl (refl, h, full)))
          | inl (e, room) ↦
              rw e
                (elim (check_quota-Checked policy.tokens_per_day
                  (sum_tokens_today s now.tokens table key.id) tokens_exceeded) [
                    | inr (f, full) ↦ rw f (inr (inr (inl (refl, h, room, full))))
                    | inl (f, room') ↦ rw f (inr (inr (inr (refl, h, room, room'))))
                  ])
        ]

  decide-Verdict :
      (allowed : Bool) (r : RateLimitResult)
      → r.allowed ≡ allowed
      → Verdict policy r
          (count_requests_today s now.requests table key.id)
          (sum_tokens_today s now.tokens table key.id)
          (if allowed then check_quotas s now table key client r else err rate_limited)
  decide-Verdict true r h = check_quotas-Verdict r h
  decide-Verdict false r h = inl (refl, h)

  -- A precheck raises the rate limit's error when the limiter refuses, else that of the daily
  -- requests when as many are recorded as the policy allows, else that of the daily tokens when as
  -- many are used up, and else admits; a limit of the policy that is zero refuses nothing.
  pub precheck-Verdict :
      Verdict policy rate
        (count_requests_today s now.requests table key.id)
        (sum_tokens_today s now.tokens table key.id)
        (precheck s now table key client).1
  unfolding precheck
  precheck-Verdict = decide-Verdict rate.allowed rate refl
