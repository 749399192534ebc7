-- ===== src/Observability.antt =====
-- app/services/observability.py: aggregates over the usage records, for the admin plane. The table is
-- the list of its rows in order of insertion, and `today` is the start of the day by the clock.
pub mod Latency
pub mod Order
pub mod Groups
pub mod Breakdowns
pub mod Recent
pub mod Agreement
mod Tests
use syn.Common.{
  ℕ, zero, suc, ◌+◌, String, Bool, true, false, ◌&&◌, not, Option, none, some, List, [], ◌∷◌, ◌++◌,
  map, ltb, leb, str_eq, ◌==◌, if◌then◌else◌, length, take, count_if, select,
}
use syn.Common.Int.{ℤ, pos, negsuc}
use syn.Errors.{Exn, Result, ok, err, ◌>>=◌}
use syn.Usage.{
  Outcome, completed, failed, cancelled, timed_out, rejected, UsageRecord, in_period, sum_column,
  has_status, has_unknown_usage, day_start,
}
use Order.{greatest_first}
use Latency.{LatencyStats, compute_latency_for_field}

pub record RequestOutcomeSummary : Type 0 where
  pub completed_count : ℕ
  pub failed_count : ℕ
  pub cancelled_count : ℕ
  pub timed_out_count : ℕ
  pub rejected_count : ℕ

pub record TokenSummary : Type 0 where
  pub prompt_tokens : ℕ
  pub completion_tokens : ℕ
  pub total_tokens : ℕ
  pub requests_with_unknown_usage : ℕ

pub record SummaryResponse : Type 0 where
  pub requests : RequestOutcomeSummary
  pub tokens : TokenSummary
  pub latency : LatencyStats
  pub active : ℕ
  pub queued : ℕ

pub record LatencyDetail : Type 0 where
  pub total_duration_ms : LatencyStats
  pub queue_wait_ms : LatencyStats
  pub backend_latency_ms : LatencyStats
  pub ttft_ms : LatencyStats
  pub stream_duration_ms : LatencyStats

pub record RecentRequest : Type 0 where
  pub request_id : String
  pub client_id : Option String
  pub model : String
  pub streaming : Bool
  pub status : Outcome
  pub error_code : Option String
  pub started_at : ℕ
  pub completed_at : ℕ
  pub total_duration_ms : Option ℕ
  pub ttft_ms : Option ℕ
  pub total_tokens : Option ℕ
  pub queue_wait_ms : Option ℕ

-- An entry of ClientBreakdown, ModelBreakdown or BackendBreakdown, which differ in the key's type.
pub record Breakdown {ℓ} (K : Type ℓ) : Type ℓ where
  pub group : K
  pub requests : ℕ
  pub completed_count : ℕ
  pub failed_count : ℕ
  pub cancelled_count : ℕ
  pub total_tokens : ℕ

-- A period that is not given whole is today.
unfoldable pub range : ℕ → ℕ → Option ℕ → Option ℕ → ℕ × ℕ
range day now (some since) (some until) = (since, until)
range day now none until = (day_start day now, day_start day now + day)
range day now (some since) none = (day_start day now, day_start day now + day)

unfoldable pub rows_in : ℕ × ℕ → List UsageRecord → List UsageRecord
rows_in (since, until) table = select (in_period since until) table

unfoldable pub outcomes : List UsageRecord → RequestOutcomeSummary
outcomes rows = record {
  completed_count = count_if (has_status completed) rows;
  failed_count = count_if (has_status failed) rows;
  cancelled_count = count_if (has_status cancelled) rows;
  timed_out_count = count_if (has_status timed_out) rows;
  rejected_count = count_if (has_status rejected) rows;
}

unfoldable pub token_summary : List UsageRecord → TokenSummary
token_summary rows = record {
  prompt_tokens = sum_column (λ r. r.prompt_tokens) rows;
  completion_tokens = sum_column (λ r. r.completion_tokens) rows;
  total_tokens = sum_column (λ r. r.total_tokens) rows;
  requests_with_unknown_usage = count_if has_unknown_usage rows;
}

-- _compute_latency, whose own filter of the missing values changes nothing
unfoldable pub column_stats : (UsageRecord → Option ℕ) → List UsageRecord → Result LatencyStats
column_stats column rows = compute_latency_for_field (map column rows)

-- ObservabilityService.summary, of the rows that it has fetched
unfoldable pub summary_of : List UsageRecord → ℕ → ℕ → Result SummaryResponse
unfolding outcomes token_summary column_stats
summary_of rows active queued = do
  latency ← column_stats (λ r. r.total_duration_ms) rows
  ok (record {
    requests = outcomes rows;
    tokens = token_summary rows;
    latency = latency;
    active = active;
    queued = queued;
  })

unfoldable pub summary :
    ℕ → ℕ → List UsageRecord → Option ℕ → Option ℕ → ℕ → ℕ → Result SummaryResponse
unfolding range rows_in summary_of
summary day now table since until active queued =
    summary_of (rows_in (range day now since until) table) active queued

unfoldable pub latency_stats_of : List UsageRecord → Result LatencyDetail
unfolding column_stats
latency_stats_of rows = do
  total ← column_stats (λ r. r.total_duration_ms) rows
  wait ← column_stats (λ r. r.queue_wait_ms) rows
  backend ← column_stats (λ r. r.backend_latency_ms) rows
  first ← column_stats (λ r. r.ttft_ms) rows
  stream ← column_stats (λ r. r.stream_duration_ms) rows
  ok (record {
    total_duration_ms = total;
    queue_wait_ms = wait;
    backend_latency_ms = backend;
    ttft_ms = first;
    stream_duration_ms = stream;
  })

unfoldable pub latency_stats : ℕ → ℕ → List UsageRecord → Option ℕ → Option ℕ → Result LatencyDetail
unfolding range rows_in latency_stats_of
latency_stats day now table since until =
    latency_stats_of (rows_in (range day now since until) table)

-- ORDER BY started_at DESC, where rows of one time keep their order
unfoldable pub newest_first : List UsageRecord → List UsageRecord
newest_first rows = greatest_first (λ r. r.started_at) rows

-- LIMIT min(limit, 200); a negative limit is none in SQLite
unfoldable pub limited : ℤ → List UsageRecord → List UsageRecord
limited (pos n) rows = take (if ltb 200 n then 200 else n) rows
limited (negsuc n) rows = rows

unfoldable pub recent_request : UsageRecord → RecentRequest
recent_request r = record {
  request_id = r.request_id;
  client_id = r.client_id;
  model = r.model;
  streaming = not (r.streaming == 0);
  status = r.status;
  error_code = r.error_code;
  started_at = r.started_at;
  completed_at = r.completed_at;
  total_duration_ms = r.total_duration_ms;
  ttft_ms = r.ttft_ms;
  total_tokens = r.total_tokens;
  queue_wait_ms = r.queue_wait_ms;
}

unfoldable pub recent_requests :
    ℕ → ℕ → List UsageRecord → ℤ → Option ℕ → Option ℕ → List RecentRequest
unfolding range rows_in newest_first limited recent_request
recent_requests day now table limit since until =
    map recent_request (limited limit (newest_first (rows_in (range day now since until) table)))

module _ {ℓ} {K : Type ℓ} (same : K → K → Bool) (key : UsageRecord → K) where
  -- groups.setdefault(key(r), []).append(r)
  unfoldable pub add_row : UsageRecord → List (K × List UsageRecord) → List (K × List UsageRecord)
  add_row r [] = (key r, r ∷ []) ∷ []
  add_row r ((k, rs) ∷ groups) =
      if same k (key r) then (k, rs ++ r ∷ []) ∷ groups else (k, rs) ∷ add_row r groups

  -- The loop over the rows, with the groups so far.
  unfoldable pub group_rows :
      List UsageRecord → List (K × List UsageRecord) → List (K × List UsageRecord)
  unfolding add_row
  group_rows [] groups = groups
  group_rows (r ∷ rs) groups = group_rows rs (add_row r groups)

module _ {ℓ} {K : Type ℓ} where
  -- sorted(groups.items(), key=lambda x: -len(x[1]))
  unfoldable pub largest_first : List (K × List UsageRecord) → List (K × List UsageRecord)
  largest_first groups = greatest_first (λ g. length g.1) groups

  -- What the loop over the sorted groups appends.
  unfoldable pub breakdown_entry : K × List UsageRecord → Breakdown K
  breakdown_entry (k, records) = record {
    group = k;
    requests = length records;
    completed_count = count_if (has_status completed) records;
    failed_count = count_if (has_status failed) records;
    cancelled_count = count_if (has_status cancelled) records;
    total_tokens = sum_column (λ r. r.total_tokens) records;
  }

  unfoldable pub breakdown :
      (K → K → Bool) → (UsageRecord → K) → List UsageRecord → List (Breakdown K)
  unfolding group_rows largest_first breakdown_entry
  breakdown same key rows = map breakdown_entry (largest_first (group_rows same key rows []))

-- Equality of columns that may be NULL.
unfoldable pub same_column : Option String → Option String → Bool
same_column none none = true
same_column none (some y) = false
same_column (some x) none = false
same_column (some x) (some y) = str_eq x y

unfoldable pub client_breakdown :
    ℕ → ℕ → List UsageRecord → Option ℕ → Option ℕ → List (Breakdown (Option String))
unfolding range rows_in breakdown
client_breakdown day now table since until =
    breakdown same_column (λ r. r.client_id) (rows_in (range day now since until) table)

unfoldable pub model_breakdown :
    ℕ → ℕ → List UsageRecord → Option ℕ → Option ℕ → List (Breakdown String)
unfolding range rows_in breakdown
model_breakdown day now table since until =
    breakdown str_eq (λ r. r.model) (rows_in (range day now since until) table)

unfoldable pub backend_breakdown :
    ℕ → ℕ → List UsageRecord → Option ℕ → Option ℕ → List (Breakdown (Option String))
unfolding range rows_in breakdown
backend_breakdown day now table since until =
    breakdown same_column (λ r. r.backend_id) (rows_in (range day now since until) table)
