-- ===== src/Admin/Metrics.antt =====
-- The metrics of app/api/admin.py, in the text format of Prometheus. `seconds` is the text of the
-- float that a number of milliseconds is divided to.
pub mod Grammar
pub mod Format
mod Tests
use syn.Common.{
  ℕ, zero, suc, Bool, true, false, Option, none, some, List, [], ◌∷◌, ◌++◌, ltb, if◌then◌else◌,
}
use syn.Common.Text.{Text, codes}
use syn.Common.Decimal.{str_of}
use syn.Errors.{Result, ok, err, ◌>>=◌}
use syn.Usage.{UsageRecord}
use syn.Admission.{Controller, AdmissionStatus}
use syn.Observability.{SummaryResponse, summary, latency_stats}
use syn.Observability.Latency.{LatencyStats}
use syn.Admin.Policies.{available}
use syn.Admin.Overview.{admission_shown, admission_status}

-- A line with a name, its labels and a value.
unfoldable pub sample : Text → Text → Text
sample name value = name ++ b' ' ∷ value

module _ (seconds : ℕ → Text) where
  -- _f(v and v / 1000)
  unfoldable pub seconds_or_zero : Option ℕ → Text
  seconds_or_zero none = codes "0"
  seconds_or_zero (some zero) = codes "0"
  seconds_or_zero (some (suc n)) = seconds (suc n)

  unfoldable pub request_lines : SummaryResponse → List Text
  unfolding sample
  request_lines s =
      codes "# HELP syn_requests_total Total inference requests"
      ∷ codes "# TYPE syn_requests_total counter"
      ∷ sample (codes "syn_requests_total{status=\"completed\"}")
          (str_of s.requests.completed_count)
      ∷ sample (codes "syn_requests_total{status=\"failed\"}") (str_of s.requests.failed_count)
      ∷ sample (codes "syn_requests_total{status=\"cancelled\"}")
          (str_of s.requests.cancelled_count)
      ∷ sample (codes "syn_requests_total{status=\"timed_out\"}")
          (str_of s.requests.timed_out_count)
      ∷ sample (codes "syn_requests_total{status=\"rejected\"}") (str_of s.requests.rejected_count)
      ∷ []
      ∷ []

  unfoldable pub gauge_lines : AdmissionStatus → List Text
  unfolding sample
  gauge_lines shown =
      codes "# HELP syn_active_requests Currently active requests"
      ∷ codes "# TYPE syn_active_requests gauge"
      ∷ sample (codes "syn_active_requests") (str_of shown.active)
      ∷ []
      ∷ codes "# HELP syn_queued_requests Currently queued requests"
      ∷ codes "# TYPE syn_queued_requests gauge"
      ∷ sample (codes "syn_queued_requests") (str_of shown.queued)
      ∷ []
      ∷ []

  unfoldable pub token_lines : SummaryResponse → List Text
  unfolding sample
  token_lines s =
      codes "# HELP syn_tokens_total Total tokens processed"
      ∷ codes "# TYPE syn_tokens_total counter"
      ∷ sample (codes "syn_tokens_total{type=\"prompt\"}") (str_of s.tokens.prompt_tokens)
      ∷ sample (codes "syn_tokens_total{type=\"completion\"}") (str_of s.tokens.completion_tokens)
      ∷ sample (codes "syn_tokens_total{type=\"total\"}") (str_of s.tokens.total_tokens)
      ∷ []
      ∷ []

  unfoldable pub duration_lines : SummaryResponse → List Text
  unfolding sample seconds_or_zero
  duration_lines s =
      codes "# HELP syn_request_duration_seconds Request duration statistics"
      ∷ codes "# TYPE syn_request_duration_seconds summary"
      ∷ sample (codes "syn_request_duration_seconds{quantile=\"0.5\"}")
          (seconds_or_zero s.latency.p50_ms)
      ∷ sample (codes "syn_request_duration_seconds{quantile=\"0.95\"}")
          (seconds_or_zero s.latency.p95_ms)
      ∷ sample (codes "syn_request_duration_seconds{quantile=\"1.0\"}")
          (seconds_or_zero s.latency.max_ms)
      ∷ []
      ∷ codes "# HELP syn_ttft_seconds Time to first token statistics"
      ∷ codes "# TYPE syn_ttft_seconds summary"
      ∷ []

  unfoldable pub first_lines : AdmissionStatus → SummaryResponse → List Text
  unfolding request_lines gauge_lines token_lines duration_lines
  first_lines shown s = request_lines s ++ gauge_lines shown ++ token_lines s ++ duration_lines s

  -- The lines of the time to the first token. Without a measured one they are no f-strings, and
  -- their braces stay doubled.
  unfoldable pub ttft_lines : LatencyStats → List Text
  unfolding sample seconds_or_zero
  ttft_lines l =
      if ltb 0 l.count
      then sample (codes "syn_ttft_seconds{quantile=\"0.5\"}") (seconds_or_zero l.p50_ms)
        ∷ sample (codes "syn_ttft_seconds{quantile=\"0.95\"}") (seconds_or_zero l.p95_ms)
        ∷ []
      else sample (codes "syn_ttft_seconds{{quantile=\"0.5\"}}") (codes "0")
        ∷ sample (codes "syn_ttft_seconds{{quantile=\"0.95\"}}") (codes "0")
        ∷ []

  -- prometheus_metrics, before the lines are joined
  unfoldable pub prometheus_metrics :
      Bool → Option Controller → ℕ → ℕ → List UsageRecord → Result (List Text)
  unfolding available admission_shown admission_status first_lines ttft_lines
  prometheus_metrics false admission day now table = available "observability_unavailable" none
  prometheus_metrics true admission day now table = do
    let shown = admission_shown (admission_status admission)
    counts ← summary day now table none none shown.active shown.queued
    columns ← latency_stats day now table none none
    ok (first_lines shown counts ++ ttft_lines columns.ttft_ms)
