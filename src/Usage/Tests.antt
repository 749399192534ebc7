-- ===== src/Usage/Tests.antt =====
-- Runs of app/services/usage.py's service, and instances of its theorems.
use syn.Common.{◌≤◌, ◌≡◌, refl, false, none, some, List, [], ◌∷◌, arith}
use syn.Common.Int.{pos}
use syn.Common.Dict
use syn.Errors.{err}
use syn.RateLimit.{init, check}
use syn.Policy.{Limits, resolve_policy}
use syn.Usage.{
  UsageService, UsageRecord, ApiKey, Client, Readings, Call, rejected, row, record_usage, precheck,
  requests_exceeded, effective_policy, count_requests_today, sum_tokens_today, of_key_today,
  rpm_key, day_start, column_is,
}
use syn.Usage.Precheck.{Verdict, precheck-Verdict}
use syn.Usage.Quota.{Request, serve_all, serve_all-le}

-- A day of a thousand ticks, at most two requests of a key a day.
abbrev service : UsageService
service = record {
  rate_limiter = init 10 60;
  defaults = record {
    requests_per_minute = pos 60;
    requests_per_day = pos 2;
    tokens_per_day = pos 100;
  };
  day = 1000;
}

abbrev no_limits : Limits
no_limits = record { requests_per_minute = none; requests_per_day = none; tokens_per_day = none }

abbrev key_a : ApiKey
key_a = record { id = "a"; limits = no_limits }

abbrev client_a : Client
client_a = record { id = "c"; user_id = "u"; limits = no_limits }

-- A request that the full queue rejects.
abbrev rejected_call : Call
rejected_call = record {
  request_id = "r";
  model = "m";
  streaming = false;
  started_at = 1500;
  completed_at = 1510;
  outcome = rejected;
  prompt_tokens = none;
  completion_tokens = none;
  total_tokens = none;
  queue_wait_ms = none;
  error_code = some "queue_full";
  backend_latency_ms = none;
  ttft_ms = none;
  stream_duration_ms = none;
  total_duration_ms = some 10;
  backend_id = none;
}

abbrev readings : Readings
readings = record { limiter = 15000; requests = 1500; tokens = 1500 }

abbrev request : Request
request = record { now = readings; key = key_a; client = client_a; call = rejected_call }

abbrev table : List UsageRecord
table = row (some key_a) (some client_a) rejected_call ∷ []

-- Two requests that the queue rejects use up a quota of two.
third_is_refused :
    (precheck service readings (serve_all service [] (request ∷ request ∷ [])) key_a client_a).1
    ≡ err requests_exceeded
unfolding serve_all precheck effective_policy count_requests_today sum_tokens_today of_key_today
    record_usage row init check resolve_policy Dict.get Dict.put column_is day_start
third_is_refused = refl

precheck-Verdict_example :
    Verdict
      (effective_policy service key_a client_a)
      (check service.rate_limiter 15000
        (rpm_key key_a)
        (effective_policy service key_a client_a).requests_per_minute).1
      (count_requests_today service 1500 table "a")
      (sum_tokens_today service 1500 table "a")
      (precheck service readings table key_a client_a).1
precheck-Verdict_example = precheck-Verdict service readings table key_a client_a

serve_all-le_example :
    count_requests_today service 1500 (serve_all service [] (request ∷ request ∷ request ∷ [])) "a"
    ≤ 2
serve_all-le_example =
    serve_all-le service 1500 "a" 1 [] (request ∷ request ∷ request ∷ [])
      (unfold effective_policy resolve_policy in
        ((λ _. (refl, refl)), ((λ _. (refl, refl)), ((λ _. (refl, refl)), tt))))
      (unfold count_requests_today in omega arith)
