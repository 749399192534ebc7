-- ===== src/Admin/Overview.antt =====
-- The status and the overview of app/api/admin.py, over the controller, the routing service and the
-- usage table. Times of the last check and texts of reasons are left out.
pub mod Shown
mod Tests
use syn.Common.{ℕ, String, Bool, true, false, Option, none, some, List, [], ◌∷◌}
use syn.Common.Dict.{Dict}
use syn.Common.Dict
use syn.Common.Text.{Text}
use syn.Errors.{Result, ok, err, ◌>>=◌}
use syn.Backend.{BackendHealthResult}
use syn.Usage.{UsageRecord}
use syn.Admission.{Controller, AdmissionStatus, status}
use syn.Routing.BackendRegistry.{BackendRegistry}
use syn.Routing.BackendRegistry
use syn.Routing.Router.{RoutingService, configured}
use syn.Observability.{
  RequestOutcomeSummary, TokenSummary, SummaryResponse, LatencyDetail, summary, latency_stats,
}
use syn.Observability.Latency.{LatencyStats}
use syn.Admin.Policies.{available}
use syn.Admin.Pages.Backends.{
  SplitUrl, ListState, of_probe, probe_error, BackendListItem, kind_of, overview_list,
}
use syn.Admin.Pages.Inference.{LocalInference, local_inference}

pub record BackendStatus : Type 0 where
  pub kind : String
  pub is_reachable : Bool
  pub state : ListState

-- result["routing"]
pub data RoutingStatus : Type 0 where
  not_wired passes_through : RoutingStatus
  routes_to : Dict BackendStatus → RoutingStatus

-- What get_status returns; without a controller, `admission` says that there is none.
pub record StatusOut : Type 0 where
  pub admission : Option AdmissionStatus
  pub routing : RoutingStatus

unfoldable pub backend_status :
    BackendRegistry → String → Result BackendHealthResult → BackendStatus
unfolding kind_of
backend_status r k (ok h) = record {
  kind = kind_of r k;
  is_reachable = h.is_reachable;
  state = of_probe h.state;
}
backend_status r k (err thrown) = record {
  kind = kind_of r k;
  is_reachable = false;
  state = probe_error;
}

-- The loop over the ids, which may use probes that are cached.
unfoldable pub statuses :
    BackendRegistry → List String → ℕ → Dict BackendStatus → BackendRegistry × Dict BackendStatus
unfolding backend_status
statuses r [] now found = (r, found)
statuses r (k ∷ ks) now found =
    let (r', health) = BackendRegistry.health r k false now in
    statuses r' ks now (Dict.put found k (backend_status r k health))

configured_status :
    RoutingService → Option BackendRegistry → ℕ → Option RoutingService × RoutingStatus
unfolding statuses
configured_status s none now = (some s, routes_to [])
configured_status s (some r) now =
    let (r', found) = statuses r (BackendRegistry.ids r) now [] in
    (some (record s { backend_registry = some r' }), routes_to found)

unfoldable pub routing_status : Option RoutingService → ℕ → Option RoutingService × RoutingStatus
unfolding configured_status
routing_status none now = (none, not_wired)
routing_status (some s) now = elim (configured s) [
  | true ↦ configured_status s s.backend_registry now
  | false ↦ (some s, passes_through)
]

-- await admission.status(), if there is a controller
unfoldable pub admission_status : Option Controller → Option AdmissionStatus
admission_status none = none
admission_status (some c) = some (status c)

unfoldable pub get_status :
    Option Controller → Option RoutingService → ℕ → Option RoutingService × StatusOut
unfolding routing_status admission_status
get_status admission router now =
    let (router', routing) = routing_status router now in
    (router', record { admission = admission_status admission; routing = routing })

abbrev pub no_admission : AdmissionStatus
no_admission = record {
  active = 0;
  max_active = 0;
  queued = 0;
  max_queue = 0;
  queue_timeout_seconds = 0;
}

-- The counts and limits that the overview shows; zeros without a controller.
unfoldable pub admission_shown : Option AdmissionStatus → AdmissionStatus
admission_shown none = no_admission
admission_shown (some shown) = shown

-- The three statistics of a column that the overview has.
pub record Averages : Type 0 where
  pub avg_ms : Option ℕ
  pub p50_ms : Option ℕ
  pub p95_ms : Option ℕ

unfoldable pub averages : LatencyStats → Averages
averages l = record { avg_ms = l.avg_ms; p50_ms = l.p50_ms; p95_ms = l.p95_ms }

pub record TokenTotals : Type 0 where
  pub prompt : ℕ
  pub completion : ℕ
  pub total : ℕ

unfoldable pub token_totals : TokenSummary → TokenTotals
token_totals t = record {
  prompt = t.prompt_tokens;
  completion = t.completion_tokens;
  total = t.total_tokens;
}

pub record OverviewOut : Type 0 where
  pub syn_healthy : Bool
  pub routing_configured : Bool
  pub routing_mode : String
  pub admission : AdmissionStatus
  pub backends : List BackendListItem
  pub requests : RequestOutcomeSummary
  pub tokens : TokenTotals
  pub latency_ms : Averages
  pub ttft_ms : Averages
  pub inference : Option LocalInference

-- routing_svc is not None and routing_svc.configured
unfoldable pub routes_configured : Option RoutingService → Bool
routes_configured none = false
routes_configured (some s) = configured s

unfoldable pub mode_name : Bool → String
mode_name true = "configured"
mode_name false = "passthrough"

-- OverviewOut(...). The service of the aggregates is there, or the route has raised, so `syn_healthy`
-- is true.
unfoldable pub overview_out :
    Option RoutingService
    → AdmissionStatus
    → List BackendListItem
    → SummaryResponse
    → LatencyDetail
    → OverviewOut
unfolding routes_configured mode_name averages token_totals
overview_out router admission items s l = record {
  syn_healthy = true;
  routing_configured = routes_configured router;
  routing_mode = mode_name (routes_configured router);
  admission = admission;
  backends = items;
  requests = s.requests;
  tokens = token_totals s.tokens;
  latency_ms = averages l.total_duration_ms;
  ttft_ms = averages l.ttft_ms;
  inference = local_inference items;
}

module _ (urlsplit : Text → Result SplitUrl) where
  -- get_overview: the service of the aggregates is there or not; `tick` is the clock of the probes,
  -- and `now` that of the records.
  unfoldable pub get_overview :
      Bool
      → Option Controller
      → Option RoutingService
      → (tick day now : ℕ) → List UsageRecord
      → Option RoutingService × Result OverviewOut
  unfolding available admission_shown admission_status overview_out
  get_overview false admission router tick day now table =
      (router, available "observability_unavailable" none)
  get_overview true admission router tick day now table =
      let shown = admission_shown (admission_status admission) in
      let (router', items) = overview_list urlsplit router tick in
      (
        router',
        do
          counts ← summary day now table none none shown.active shown.queued
          columns ← latency_stats day now table none none
          ok (overview_out router shown items counts columns),
      )
