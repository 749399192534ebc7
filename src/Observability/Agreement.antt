-- ===== src/Observability/Agreement.antt =====
-- The summary of app/services/observability.py against the one of app/services/usage.py.
use syn.Common.{ℕ, ◌≡◌, refl, true, Option, none, some, List, [], ◌∷◌, map, arith, select}
use syn.Errors.{Result, ok}
use syn.Usage.{
  UsageRecord, UsageService, UsageSummary, in_scope, summarize, summary as usage_summary, or_else,
}
use syn.Observability.Latency.{LatencyStats, not_none, compute_latency_for_field}
use syn.Observability.Latency.Bounds.{Described, compute_latency_for_field-Described}
use syn.Observability.{
  SummaryResponse, range, rows_in, outcomes, token_summary, column_stats, summary_of, summary,
}

Described-ok :
    (vs : List ℕ) (r : Result LatencyStats) → Described vs r → (l : LatencyStats) × (r ≡ ok l)
Described-ok [] r d = (_, d)
Described-ok (v ∷ vs) r d = (_, d.5)

pub column_stats-ok :
    (column : UsageRecord → Option ℕ) (rows : List UsageRecord)
    → (l : LatencyStats) × (column_stats column rows ≡ ok l)
unfolding column_stats
column_stats-ok column rows =
    Described-ok (not_none (map column rows)) (compute_latency_for_field (map column rows))
      (compute_latency_for_field-Described (map column rows))

select-all {ℓ} : {A : Type ℓ} (xs : List A) → select (λ x. true) xs ≡ xs
select-all [] = refl
select-all (x ∷ xs) = ground (arith, select-all xs)

-- What the two summaries have in common.
abbrev pub Agrees : UsageSummary → ℕ → ℕ → Result SummaryResponse → Type 0
Agrees u active queued r =
    (latency : LatencyStats) × (r
      ≡ ok (record {
        requests = record {
          completed_count = u.successful_requests;
          failed_count = u.failed_requests;
          cancelled_count = u.cancelled_requests;
          timed_out_count = u.timed_out_requests;
          rejected_count = u.rejected_requests;
        };
        tokens = record {
          prompt_tokens = u.prompt_tokens;
          completion_tokens = u.completion_tokens;
          total_tokens = u.total_tokens;
          requests_with_unknown_usage = u.requests_with_unknown_usage;
        };
        latency = latency;
        active = active;
        queued = queued;
      }))

summary_of-Agrees :
    (rows : List UsageRecord) (active queued : ℕ)
    → Agrees
        (usage_summary (select (in_scope none none) rows))
        active
        queued
        (summary_of rows active queued)
unfolding usage_summary in_scope summary_of outcomes token_summary
summary_of-Agrees rows active queued =
    let (l, e) = column_stats-ok (λ r. r.total_duration_ms) rows in
    (l, rw (e, select-all rows) refl)

-- For today, and for a period that is given whole, the operator's summary raises nothing, and its
-- outcome counts and token sums are those of the usage summary of all keys and clients.
pub summary-summarize :
    (s : UsageService) (now : ℕ) (table : List UsageRecord) (active queued : ℕ) (since until : ℕ)
    → Agrees
        (summarize s now table none none none none)
        active
        queued
        (summary s.day now table none none active queued)
      × Agrees
          (summarize s now table none none (some since) (some until))
          active
          queued
          (summary s.day now table (some since) (some until) active queued)
unfolding summary range rows_in summarize or_else
summary-summarize s now table active queued since until =
    (summary_of-Agrees _ active queued, summary_of-Agrees _ active queued)
