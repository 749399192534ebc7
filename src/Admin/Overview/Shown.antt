-- ===== src/Admin/Overview/Shown.antt =====
-- What the overview of app/api/admin.py shows, against the other routes.
use syn.Common.{ℕ, String, ◌≡◌, refl, ap, ◌∙◌, sym, true, Option, none, some, List, [], ◌∷◌, map}
use syn.Common.Text.{Text}
use syn.Errors.{Result, ok, err, ◌>>=◌}
use syn.Common.Json.{null}
use syn.Schemas.{optional_str}
use syn.Backend.{BackendHealthResult}
use syn.Usage.{UsageRecord}
use syn.Admission.{Controller, status}
use syn.Routing.BackendRegistry.{BackendRegistry}
use syn.Routing.BackendRegistry
use syn.Routing.Router.{RoutingService, configured}
use syn.Observability.{
  SummaryResponse, LatencyDetail, summary, summary_of, outcomes, token_summary, range, rows_in,
  latency_stats, latency_stats_of,
}
use syn.Observability.Agreement.{column_stats-ok}
use syn.Admin.Policies.{observability_summary, observability_latency}
use syn.Admin.Pages.Backends.{
  SplitUrl, BackendListItem, if_up, item_or, failed_item, overview_item, overview_backends,
  overview_list, safe_backend_endpoint,
}
use syn.Admin.Pages.Inference.First.{IsInference, local_inference-IsInference}
use syn.Admin.Overview.{
  OverviewOut, get_overview, get_status, admission_status, admission_shown, overview_out, averages,
  token_totals, routes_configured,
}

module _ (urlsplit : Text → Result SplitUrl) where
  overview_item-id :
      (r : BackendRegistry) (k : String) (h : BackendHealthResult) (endpoint : Result (Option Text))
      (version : Result (Option String))
      → safe_backend_endpoint urlsplit r k ≡ endpoint
      → optional_str (if_up h.is_reachable h.server_version null) ≡ version
      → (item_or (failed_item r k) (overview_item urlsplit r k h)).id ≡ k
  unfolding item_or overview_item
  overview_item-id r k h (err e) v he hv = rw (he, overview_item) refl
  overview_item-id r k h (ok p) (err e) he hv = rw (he, hv, overview_item) refl
  overview_item-id r k h (ok p) (ok v) he hv = rw (he, hv, overview_item) refl

  shown-id :
      (r : BackendRegistry) (k : String) (health : Result BackendHealthResult)
      → (item_or (failed_item r k) (health >>= overview_item urlsplit r k)).id ≡ k
  unfolding item_or
  shown-id r k (err e) = refl
  shown-id r k (ok h) = overview_item-id r k h _ _ refl refl

  overview_backends-ids :
      (r : BackendRegistry) (ks : List String) (now : ℕ)
      → map (λ (b : BackendListItem). b.id) (overview_backends urlsplit r ks now).1 ≡ ks
  unfolding overview_backends
  overview_backends-ids r [] now = refl
  overview_backends-ids r (k ∷ ks) now =
      let (r', health) = BackendRegistry.health r k true now in
      rw (shown-id r k health, overview_backends-ids r' ks now) refl

-- The aggregates raise nothing, and have one statistic of the durations.
pub aggregates :
    (day now : ℕ) (table : List UsageRecord) (active queued : ℕ)
    → (c : SummaryResponse) × (l : LatencyDetail) × (summary day now table none none active queued
        ≡ ok c)
      × (latency_stats day now table none none ≡ ok l)
      × (c.latency ≡ l.total_duration_ms)
unfolding latency_stats latency_stats_of summary summary_of
aggregates day now table active queued =
    let rows = rows_in (range day now none none) table in
    let (total, e) = column_stats-ok (λ r. r.total_duration_ms) rows in
    let (wait, f) = column_stats-ok (λ r. r.queue_wait_ms) rows in
    let (backend, g) = column_stats-ok (λ r. r.backend_latency_ms) rows in
    let (first, h) = column_stats-ok (λ r. r.ttft_ms) rows in
    let (stream, i) = column_stats-ok (λ r. r.stream_duration_ms) rows in
    (
      record {
        requests = outcomes rows;
        tokens = token_summary rows;
        latency = total;
        active = active;
        queued = queued;
      },
      record {
        total_duration_ms = total;
        queue_wait_ms = wait;
        backend_latency_ms = backend;
        ttft_ms = first;
        stream_duration_ms = stream;
      },
      rw e refl,
      rw (e, f, g, h, i) refl,
      refl,
    )

-- What observability_summary is given of the controller.
abbrev pub counted : Option Controller → Option (ℕ × ℕ)
counted none = none
counted (some c) = some ((status c).active, (status c).queued)

-- An overview that agrees with the other routes.
pub record IsOverview (admission : Option Controller) (s : RoutingService) (r : BackendRegistry)
    (day now : ℕ) (table : List UsageRecord) (o : OverviewOut) : Type 0 where
  pub healthy : o.syn_healthy ≡ true
  pub same_mode : o.routing_configured ≡ configured s
  pub same_admission : o.admission ≡ admission_shown (get_status admission none 0).1.admission
  pub ids : map (λ (b : BackendListItem). b.id) o.backends ≡ BackendRegistry.ids r
  pub same_summary :
      (c : SummaryResponse) × (observability_summary true (counted admission) day now table ≡ ok c)
      × (o.requests ≡ c.requests)
      × (o.tokens ≡ token_totals c.tokens)
      × (o.latency_ms ≡ averages c.latency)
  pub same_first :
      (l : LatencyDetail) × (observability_latency true day now table ≡ ok l)
      × (o.ttft_ms ≡ averages l.ttft_ms)
  pub inference : IsInference o.backends o.inference

observability_summary-counted :
    (admission : Option Controller) (day now : ℕ) (table : List UsageRecord)
    → (let shown = admission_shown (admission_status admission) in
        observability_summary true (counted admission) day now table
        ≡ summary day now table none none shown.active shown.queued)
unfolding observability_summary admission_shown admission_status
observability_summary-counted none day now table = refl
observability_summary-counted (some c) day now table = refl

-- With a registry of backends, the overview is answered whatever the probes of the backends answer or
-- raise. It lists every backend once, counts what the status and the summary of the same moment count,
-- and tells of the first backend with a loaded model, else of the first that is reachable, else of
-- the first at all.
pub get_overview-IsOverview :
    (urlsplit : Text → Result SplitUrl) (admission : Option Controller) (s : RoutingService)
    (r : BackendRegistry) (tick day now : ℕ) (table : List UsageRecord)
    → s.backend_registry ≡ some r
    → (o : OverviewOut) × ((get_overview urlsplit true admission (some s) tick day now table).1
        ≡ ok o)
      × IsOverview admission s r day now table o
unfolding get_overview overview_list overview_out get_status observability_latency routes_configured
get_overview-IsOverview urlsplit admission s r tick day now table h =
    let shown = admission_shown (admission_status admission) in
    let items = (overview_backends urlsplit r (BackendRegistry.ids r) tick).1 in
    let (c, l, e, f, same) = aggregates day now table shown.active shown.queued in
    (
      overview_out (some s) shown items c l,
      rw (h, e, f, get_overview) refl,
      record {
        healthy = refl;
        same_mode = refl;
        same_admission = refl;
        ids = overview_backends-ids urlsplit r (BackendRegistry.ids r) tick;
        same_summary = (
          c,
          observability_summary-counted admission day now table ∙ e,
          refl,
          refl,
          ap averages (sym same),
        );
        same_first = (l, f, refl);
        inference = local_inference-IsInference items;
      },
    )
