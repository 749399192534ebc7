-- ===== src/Usage/Summary.antt =====
-- The usage summary of app/services/usage.py against what the quotas are enforced on.
use syn.Common.{
  ℕ, suc, String, ◌+◌, ◌≡◌, refl, Bool, ◌&&◌, Option, none, some, List, [], ◌∷◌, arith, select,
  length-select, if◌then◌else◌,
}
use syn.Usage.{
  Outcome, completed, failed, cancelled, timed_out, rejected, UsageService, UsageRecord,
  same_outcome, has_status, day_start, in_period, of_key_today, count_requests_today,
  sum_tokens_today, in_scope, summary, summarize,
}

select-select {ℓ} :
    {A : Type ℓ} (p q : A → Bool) (xs : List A)
    → select p (select q xs) ≡ select (λ x. p x && q x) xs
select-select p q [] = refl
select-select p q (x ∷ xs) = ground (arith, select-select p q xs)

-- The requests and the tokens that a summary of a key's current day reports are those that its
-- daily quotas are checked against.
pub summarize-today :
    (s : UsageService) (now : ℕ) (table : List UsageRecord) (id : String) (client : Option String)
    → ((summarize s now table (some id) client none none).requests
        ≡ count_requests_today s now table id)
      × ((summarize s now table (some id) client none none).total_tokens
          ≡ sum_tokens_today s now table id)
unfolding summarize summary count_requests_today sum_tokens_today of_key_today in_scope
summarize-today s now table id client =
    rw
      (select-select (in_scope (some id) client)
        (in_period (day_start s.day now) (day_start s.day now + s.day)) table)
      (length-select (of_key_today s now id) table, refl)

one_outcome :
    (o : Outcome) (a b c d e n : ℕ)
    → a + b + c + d + e ≡ n
    → (if same_outcome o completed then suc a else a)
        + (if same_outcome o failed then suc b else b)
        + (if same_outcome o cancelled then suc c else c)
        + (if same_outcome o rejected then suc d else d)
        + (if same_outcome o timed_out then suc e else e)
      ≡ suc n
unfolding same_outcome
one_outcome completed a b c d e n h = omega arith
one_outcome failed a b c d e n h = omega arith
one_outcome cancelled a b c d e n h = omega arith
one_outcome timed_out a b c d e n h = omega arith
one_outcome rejected a b c d e n h = omega arith

outcomes_add_up :
    (rows : List UsageRecord)
    → (summary rows).successful_requests
        + (summary rows).failed_requests
        + (summary rows).cancelled_requests
        + (summary rows).rejected_requests
        + (summary rows).timed_out_requests
      ≡ (summary rows).requests
unfolding summary has_status
outcomes_add_up [] = refl
outcomes_add_up (r ∷ rs) = one_outcome r.status _ _ _ _ _ _ (outcomes_add_up rs)

-- Every request that a summary counts is counted under exactly one of the five outcomes.
pub summarize-outcomes :
    (s : UsageService) (now : ℕ) (table : List UsageRecord) (key client : Option String)
    (since until : Option ℕ)
    → let u = summarize s now table key client since until in
      u.successful_requests + u.failed_requests + u.cancelled_requests + u.rejected_requests
        + u.timed_out_requests
      ≡ u.requests
unfolding summarize
summarize-outcomes s now table key client since until = outcomes_add_up _
