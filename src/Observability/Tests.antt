-- ===== src/Observability/Tests.antt =====
-- Runs of app/services/observability.py's service, and instances of its theorems.
use syn.Common.{ℕ, ◌≡◌, refl, Option, none, some, String, List, [], ◌∷◌, length, map, str_eq}
use syn.Common.Int.{pos, negsuc}
use syn.Errors.{ok}
use syn.RateLimit.{init}
use syn.Usage.{UsageService, UsageRecord, completed, summarize, day_start, in_period}
use syn.Observability.{
  range, rows_in, summary, client_breakdown, model_breakdown, backend_breakdown, recent_requests,
  same_column, breakdown, largest_first, breakdown_entry, recent_request,
}
use syn.Observability.Order.{greatest_first}
use syn.Observability.Latency.{last, compute_latency_for_field, not_none, round_div}
use syn.Observability.Latency.Bounds.{Described, compute_latency_for_field-Described}
use syn.Observability.Breakdowns.{IsPartition, breakdowns-IsPartition}
use syn.Observability.Recent.{IsNewest, recent_requests_lem}
use syn.Observability.Agreement.{Agrees, summary-summarize}

abbrev service : UsageService
service = record {
  rate_limiter = init 10 60;
  defaults = record {
    requests_per_minute = pos 60;
    requests_per_day = pos 2;
    tokens_per_day = pos 100;
  };
  day = 1000;
}

abbrev request : String → Option String → ℕ → UsageRecord
request id client at = record {
  request_id = id;
  user_id = none;
  client_id = client;
  api_key_id = none;
  model = "m";
  streaming = 0;
  started_at = at;
  completed_at = at;
  status = completed;
  prompt_tokens = some 2;
  completion_tokens = some 3;
  total_tokens = some 5;
  queue_wait_ms = none;
  error_code = none;
  backend_latency_ms = none;
  ttft_ms = none;
  stream_duration_ms = none;
  total_duration_ms = some 40;
  backend_id = some "b";
}

abbrev table : List UsageRecord
table = request "1" (some "c") 1100 ∷ request "2" none 1200 ∷ request "3" none 1150 ∷ []

-- The client of two requests, the missing one, stands first.
largest_client_first :
    map (λ b. b.group) (client_breakdown 1000 1500 table none none) ≡ none ∷ some "c" ∷ []
unfolding client_breakdown breakdown largest_first breakdown_entry range rows_in day_start in_period
    greatest_first same_column
largest_client_first = refl

newest_two_first :
    map (λ r. r.request_id) (recent_requests 1000 1500 table (pos 2) none none) ≡ "2" ∷ "3" ∷ []
unfolding recent_requests range rows_in day_start in_period greatest_first
newest_two_first = refl

-- The median of 10 and 20 is 15, and their 95th percentile is 19.5, which rounds to the even 20.
two_values :
    compute_latency_for_field (some 20 ∷ none ∷ some 10 ∷ [])
    ≡ ok (record {
      count = 2;
      avg_ms = some 15;
      p50_ms = some 15;
      p95_ms = some 20;
      max_ms = some 20;
    })
unfolding compute_latency_for_field round_div last
two_values = refl

compute_latency_for_field-Described_example :
    Described
      (not_none (some 20 ∷ none ∷ some 10 ∷ []))
      (compute_latency_for_field (some 20 ∷ none ∷ some 10 ∷ []))
compute_latency_for_field-Described_example =
    compute_latency_for_field-Described (some 20 ∷ none ∷ some 10 ∷ [])

breakdowns-IsPartition_example :
    let rows = rows_in (range 1000 1500 none none) table in
    IsPartition same_column (λ r. r.client_id) rows (client_breakdown 1000 1500 table none none)
    × IsPartition str_eq (λ r. r.model) rows (model_breakdown 1000 1500 table none none)
    × IsPartition same_column (λ r. r.backend_id) rows (backend_breakdown 1000 1500 table none none)
breakdowns-IsPartition_example = breakdowns-IsPartition 1000 1500 table none none

recent_requests_lem_example :
    (shown : List UsageRecord) × (rest : List UsageRecord) × (recent_requests 1000 1500 table
        (pos 2)
        none
        none
      ≡ map recent_request shown)
    × IsNewest (pos 2) (rows_in (range 1000 1500 none none) table) shown rest
recent_requests_lem_example = recent_requests_lem 1000 1500 table (pos 2) none none

-- A negative limit returns all the rows of the period.
no_cap : length (recent_requests 1000 1500 table (negsuc 0) none none) ≡ 3
unfolding recent_requests range rows_in day_start in_period greatest_first
no_cap = refl

summary-summarize_example :
    Agrees
      (summarize service 1500 table none none none none)
      1
      2
      (summary 1000 1500 table none none 1 2)
    × Agrees
        (summarize service 1500 table none none (some 1100) (some 1180))
        1
        2
        (summary 1000 1500 table (some 1100) (some 1180) 1 2)
summary-summarize_example = summary-summarize service 1500 table 1 2 1100 1180
