-- ===== src/Admin/Metrics/Format.antt =====
-- The format of the metrics of app/api/admin.py.
use syn.Common.{
  ℕ, zero, suc, ◌+◌, ◌/◌, ◌%◌, ◌<◌, ◌≡◌, refl, ◌↔◌, inl, inr, true, Option, none, some, List, [],
  ◌∷◌, ◌++◌, arith, ltb, is_empty, false, if◌then◌else◌, Bool-cases,
}
use syn.Common.Text.{Text, starts_with}
use syn.Common.Decimal.{digits, str_of}
use syn.Common.Decimal.RoundTrip.{IsDigits, digits-IsDigits}
use syn.Errors.{ok}
use syn.Usage.{UsageRecord}
use syn.Admission.{Controller, AdmissionStatus}
use syn.Observability.{SummaryResponse, LatencyDetail, latency_stats}
use syn.Observability.Latency.{LatencyStats}
use syn.Admin.Overview.{admission_shown, admission_status}
use syn.Admin.Overview.Shown.{aggregates}
use syn.Admin.Metrics.Grammar.{is_value_char, all_value, is_value, is_line, AreLines}
use syn.Admin.Metrics.{
  sample, seconds_or_zero, request_lines, gauge_lines, token_lines, duration_lines, first_lines,
  ttft_lines, prometheus_metrics,
}

all_value-digits : (s : Text) → IsDigits s → all_value s ≡ true
unfolding all_value is_value_char
all_value-digits [] d = refl
all_value-digits (c ∷ s) (h, d) = rw (h, all_value-digits s d) refl

append-nonempty : (s : Text) (c : ℕ) → is_empty (s ++ c ∷ []) ≡ false
append-nonempty [] c = refl
append-nonempty (d ∷ s) c = refl

is_value-str_of : (n : ℕ) → is_value (str_of n) ≡ true
unfolding str_of digits is_value
is_value-str_of n =
    rw
      (
        append-nonempty (if ltb n 10 then [] else digits n (n / 10)) (b'0' + n % 10),
        all_value-digits (digits (suc n) n) (digits-IsDigits (suc n) n),
      )
      refl

AreLines-append : (xs ys : List Text) → AreLines xs → AreLines ys → AreLines (xs ++ ys)
AreLines-append [] ys a b = b
AreLines-append (x ∷ xs) ys (h, a) b = (h, AreLines-append xs ys a b)

AreLines-right : (xs ys : List Text) → AreLines (xs ++ ys) → AreLines ys
AreLines-right [] ys a = a
AreLines-right (x ∷ xs) ys (h, a) = AreLines-right xs ys a

infixr 5 ◌▸◌
◌▸◌ : {A B : Type 0} → A → B → A × B
a ▸ b = (a, b)

module _ (seconds : ℕ → Text) (plain : (n : ℕ) → is_value (seconds n) ≡ true) where
  is_value-seconds_or_zero : (v : Option ℕ) → is_value (seconds_or_zero seconds v) ≡ true
  unfolding seconds_or_zero is_value
  is_value-seconds_or_zero none = refl
  is_value-seconds_or_zero (some zero) = refl
  is_value-seconds_or_zero (some (suc n)) = plain (suc n)

  request_lines-AreLines : (s : SummaryResponse) → AreLines (request_lines seconds s)
  unfolding request_lines sample is_line starts_with
  request_lines-AreLines s =
      refl
      ▸ refl
      ▸ is_value-str_of s.requests.completed_count
      ▸ is_value-str_of s.requests.failed_count
      ▸ is_value-str_of s.requests.cancelled_count
      ▸ is_value-str_of s.requests.timed_out_count
      ▸ is_value-str_of s.requests.rejected_count
      ▸ refl
      ▸ tt

  gauge_lines-AreLines : (shown : AdmissionStatus) → AreLines (gauge_lines seconds shown)
  unfolding gauge_lines sample is_line starts_with
  gauge_lines-AreLines shown =
      refl
      ▸ refl
      ▸ is_value-str_of shown.active
      ▸ refl
      ▸ refl
      ▸ refl
      ▸ is_value-str_of shown.queued
      ▸ refl
      ▸ tt

  token_lines-AreLines : (s : SummaryResponse) → AreLines (token_lines seconds s)
  unfolding token_lines sample is_line starts_with
  token_lines-AreLines s =
      refl
      ▸ refl
      ▸ is_value-str_of s.tokens.prompt_tokens
      ▸ is_value-str_of s.tokens.completion_tokens
      ▸ is_value-str_of s.tokens.total_tokens
      ▸ refl
      ▸ tt

  duration_lines-AreLines : (s : SummaryResponse) → AreLines (duration_lines seconds s)
  unfolding duration_lines sample is_line starts_with
  duration_lines-AreLines s =
      refl
      ▸ refl
      ▸ is_value-seconds_or_zero s.latency.p50_ms
      ▸ is_value-seconds_or_zero s.latency.p95_ms
      ▸ is_value-seconds_or_zero s.latency.max_ms
      ▸ refl
      ▸ refl
      ▸ refl
      ▸ tt

  first_lines-AreLines :
      (shown : AdmissionStatus) (s : SummaryResponse) → AreLines (first_lines seconds shown s)
  unfolding first_lines
  first_lines-AreLines shown s =
      let gauges = gauge_lines seconds shown in
      let tokens = token_lines seconds s in
      let durations = duration_lines seconds s in
      AreLines-append (request_lines seconds s) (gauges ++ tokens ++ durations)
        (request_lines-AreLines s)
        (AreLines-append gauges (tokens ++ durations) (gauge_lines-AreLines shown)
          (AreLines-append tokens durations (token_lines-AreLines s) (duration_lines-AreLines s)))

  ttft_lines-AreLines : (l : LatencyStats) → AreLines (ttft_lines seconds l) ↔ (0 < l.count)
  unfolding ttft_lines is_line sample starts_with
  ttft_lines-AreLines l = elim (Bool-cases (ltb 0 l.count)) [
    | inl e ↦ rw e (
      λ a. ground (arith, e),
      λ pos. is_value-seconds_or_zero l.p50_ms ▸ is_value-seconds_or_zero l.p95_ms ▸ tt,
    )
    | inr e ↦ rw e (λ a. absurd (cc a.0), λ pos. absurd (ground (arith, e, pos)))
  ]

  -- The metrics are answered whatever the table holds, and all of their lines have the format exactly
  -- if the statistics of the day count a time to the first token: else the last two lines open two
  -- braces. The text of a number of seconds is taken to be one of digits, points, signs and the
  -- exponent's letter.
  pub prometheus_metrics-AreLines :
      (admission : Option Controller) (day now : ℕ) (table : List UsageRecord)
      → (ls : List Text) × (l : LatencyDetail) × (prometheus_metrics seconds true admission day now
            table
          ≡ ok ls)
        × (latency_stats day now table none none ≡ ok l)
        × (AreLines ls ↔ (0 < l.ttft_ms.count))
  unfolding prometheus_metrics
  prometheus_metrics-AreLines admission day now table =
      let shown = admission_shown (admission_status admission) in
      let (c, l, e, f, same) = aggregates day now table shown.active shown.queued in
      let first = first_lines seconds shown c in
      let ttft = ttft_lines seconds l.ttft_ms in
      let is_iff = ttft_lines-AreLines l.ttft_ms in
      (
        first ++ ttft,
        l,
        rw (e, f, prometheus_metrics) refl,
        f,
        (
          λ a. is_iff.0 (AreLines-right first ttft a),
          λ pos. AreLines-append first ttft (first_lines-AreLines shown c) (is_iff.1 pos),
        ),
      )
