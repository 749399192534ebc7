-- ===== src/Admin/Policies.antt =====
-- The routes of app/api/admin.py over usage and policies. What a route answers is the record of the
-- service, whose fields the schema repeats.
pub mod Updates
mod Tests
use syn.Common.{
  ℕ, String, Bool, true, false, Option, none, some, List, [], ◌∷◌, map, str_eq, select,
  if◌then◌else◌,
}
use syn.Common.Int.{ℤ, pos}
use syn.Common.Text.{Text}
use syn.Errors.{syn_error, make, gateway, Result, ok, err, ◌>>=◌, ◌>>◌}
use syn.Policy.{Limits}
use syn.Usage.{UsageService, UsageRecord, UsageSummary, summarize}
use syn.Observability.{
  SummaryResponse, LatencyDetail, RecentRequest, Breakdown, summary, latency_stats, recent_requests,
  client_breakdown, model_breakdown, backend_breakdown,
}
use syn.Admin.{Client, ApiKey, Database, find, found_or, get_client}
use syn.Admin.Keys.{get_api_key}

-- A service that the application may lack.
unfoldable pub available {ℓ} : {A : Type ℓ} → String → Option A → Result A
available code none = err (gateway (make syn_error (some code) (some 503) none))
available code (some service) = ok service

unfoldable pub get_usage_summary :
    Option UsageService → ℕ → List UsageRecord → Option String → Option String → Result UsageSummary
unfolding available
get_usage_summary service now table client_id api_key_id = do
  usage ← available "usage_unavailable" service
  ok (summarize usage now table api_key_id client_id none none)

-- get_client_usage
unfoldable pub get_client_usage :
    Option UsageService → ℕ → List UsageRecord → String → Database → Result UsageSummary
unfolding available
get_client_usage service now table client_id db = do
  usage ← available "usage_unavailable" service
  client ← get_client client_id db
  ok (summarize usage now table none (some client_id) none none)

unfoldable pub get_api_key_usage :
    Option UsageService → ℕ → List UsageRecord → String → Database → Result UsageSummary
unfolding available
get_api_key_usage service now table api_key_id db = do
  usage ← available "usage_unavailable" service
  api_key ← get_api_key api_key_id db
  ok (summarize usage now table (some api_key_id) none none none)

pub record ClientPolicyOut : Type 0 where
  pub id : String
  pub name : Text
  pub limits : Limits

unfoldable pub policy_out : Client → ClientPolicyOut
policy_out c = record { id = c.id; name = c.name; limits = c.limits }

unfoldable pub get_client_policy : String → Database → Result ClientPolicyOut
unfolding policy_out get_client
get_client_policy client_id db = do client ← get_client client_id db; ok (policy_out client)

-- A field is `none` when the body does not have it, and holds what the body says, null or a natural
-- number, when it does.
pub record ClientPolicyUpdate : Type 0 where
  pub requests_per_minute : Option (Option ℕ)
  pub requests_per_day : Option (Option ℕ)
  pub tokens_per_day : Option (Option ℕ)

-- if field in body.model_fields_set: column = body.field
unfoldable pub updated : Option (Option ℕ) → Option ℤ → Option ℤ
updated none column = column
updated (some none) column = none
updated (some (some n)) column = some (pos n)

unfoldable pub updated_limits : ClientPolicyUpdate → Limits → Limits
unfolding updated
updated_limits body l = record {
  requests_per_minute = updated body.requests_per_minute l.requests_per_minute;
  requests_per_day = updated body.requests_per_day l.requests_per_day;
  tokens_per_day = updated body.tokens_per_day l.tokens_per_day;
}

-- The time of the row's last change is left as it is.
unfoldable pub updated_row : String → ClientPolicyUpdate → Client → Client
unfolding updated_limits
updated_row client_id body c =
    if str_eq c.id client_id then record c { limits = updated_limits body c.limits } else c

unfoldable pub update_found :
    String → ClientPolicyUpdate → Database → Result Client → Database × Result ClientPolicyOut
unfolding updated_row policy_out
update_found client_id body db (err e) = (db, err e)
update_found client_id body db (ok client) = (
  record db { clients = map (updated_row client_id body) db.clients },
  ok (policy_out (updated_row client_id body client)),
)

unfoldable pub update_client_policy :
    String → ClientPolicyUpdate → Database → Database × Result ClientPolicyOut
unfolding update_found
update_client_policy client_id body db = update_found client_id body db (get_client client_id db)

-- observability_summary: the service is there or not, and `admission` has what the controller counts
-- as active and as queued, if there is one.
unfoldable pub observability_summary :
    Bool → Option (ℕ × ℕ) → ℕ → ℕ → List UsageRecord → Result SummaryResponse
unfolding available
observability_summary false admission day now table = available "observability_unavailable" none
observability_summary true none day now table = summary day now table none none 0 0
observability_summary true (some (active, queued)) day now table =
    summary day now table none none active queued

unfoldable pub observability_latency : Bool → ℕ → ℕ → List UsageRecord → Result LatencyDetail
unfolding available
observability_latency false day now table = available "observability_unavailable" none
observability_latency true day now table = latency_stats day now table none none

-- The other routes over the service: their schemas repeat its records.
unfoldable pub observability_recent :
    Bool → ℕ → ℕ → List UsageRecord → ℤ → Result (List RecentRequest)
unfolding available
observability_recent false day now table limit = available "observability_unavailable" none
observability_recent true day now table limit = ok (recent_requests day now table limit none none)

unfoldable pub observability_clients :
    Bool → ℕ → ℕ → List UsageRecord → Result (List (Breakdown (Option String)))
unfolding available
observability_clients false day now table = available "observability_unavailable" none
observability_clients true day now table = ok (client_breakdown day now table none none)

unfoldable pub observability_models :
    Bool → ℕ → ℕ → List UsageRecord → Result (List (Breakdown String))
unfolding available
observability_models false day now table = available "observability_unavailable" none
observability_models true day now table = ok (model_breakdown day now table none none)

unfoldable pub observability_backends :
    Bool → ℕ → ℕ → List UsageRecord → Result (List (Breakdown (Option String)))
unfolding available
observability_backends false day now table = available "observability_unavailable" none
observability_backends true day now table = ok (backend_breakdown day now table none none)
