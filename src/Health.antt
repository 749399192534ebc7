-- ===== src/Health.antt =====
-- app/api/health.py with app/schemas/health.py: what the health routes tell of the gateway, of its
-- database and of its backends.
pub mod Reports
mod Tests
use syn.Common.{
  ℕ, String, Bool, true, false, ◌&&◌, ◌||◌, not, Option, none, some, List, [], ◌∷◌, length,
  if◌then◌else◌,
}
use syn.Common.Dict.{Dict}
use syn.Common.Dict
use syn.Common.Json.{Json, null, bool, num, decimal, str, arr, obj}
use syn.Common.Text.{Text}
use syn.Errors.{Exn, other, Result, ok, err, ◌>>=◌}
use syn.Schemas.{optional_str}
use syn.Backend.{BackendHealthState, BackendHealthResult, InferenceBackend}
use syn.Routing.BackendRegistry.{BackendRegistry, health_map}
use syn.Routing.Router.{RoutingService, configured}
use syn.Chat.Dispatch.{AppState}

-- The texts of `state`: those of the code, and the value of a backend's own state.
pub data HealthState : Type 0 where
  healthy degraded unhealthy unknown unreachable : HealthState
  of_backend : BackendHealthState → HealthState

-- The texts of `reason`, with what they tell.
pub data Reason : Type 0 where
  all_reachable : ℕ → Reason
  unreachable_backends : List String → Reason
  all_unreachable : ℕ → Reason
  not_wired probe_raised backend_reason : Reason

pub record BackendHealth : Type 0 where
  pub configured : Bool
  pub is_reachable : Bool
  pub state : HealthState
  pub reason : Reason
  pub server_version : Option String
  pub model : Option Text

-- BackendHealth(...)
unfoldable pub backend_health_of :
    (configured is_reachable : Bool) (state : HealthState) (reason : Reason) (version : Json)
    (model : Option Text)
    → Result BackendHealth
unfolding optional_str
backend_health_of configured is_reachable state reason version model = do
  server_version ← optional_str version
  ok (record {
    configured = configured;
    is_reachable = is_reachable;
    state = state;
    reason = reason;
    server_version = server_version;
    model = model;
  })

-- all(h.reachable for h in health_map.values())
unfoldable pub all_up : Dict BackendHealthResult → Bool
all_up [] = true
all_up ((k, h) ∷ hs) = h.is_reachable && all_up hs

-- any(h.reachable for h in health_map.values())
unfoldable pub any_up : Dict BackendHealthResult → Bool
any_up [] = false
any_up ((k, h) ∷ hs) = h.is_reachable || any_up hs

-- [bid for bid, h in health_map.items() if not h.reachable]
unfoldable pub down_ids : Dict BackendHealthResult → List String
down_ids [] = []
down_ids ((k, h) ∷ hs) = let rest = down_ids hs in if h.is_reachable then rest else k ∷ rest

-- The version and the model of the first reachable backend.
unfoldable pub first_up : Dict BackendHealthResult → Json × Option Text
first_up [] = (null, none)
first_up ((k, h) ∷ hs) =
    let rest = first_up hs in if h.is_reachable then (h.server_version, h.model) else rest

unfoldable pub state_of : Dict BackendHealthResult → HealthState
unfolding all_up any_up
state_of hs = if all_up hs then healthy else if any_up hs then degraded else unhealthy

unfoldable pub reason_of : Dict BackendHealthResult → Reason
unfolding all_up any_up down_ids
reason_of hs =
    if all_up hs
    then all_reachable (length hs)
    else if any_up hs
    then unreachable_backends (down_ids hs)
    else all_unreachable (length hs)

-- What is told of several backends.
unfoldable pub aggregate : Dict BackendHealthResult → Result BackendHealth
unfolding state_of reason_of first_up backend_health_of
aggregate hs =
    let (version, model) = first_up hs in
    backend_health_of true (all_up hs || any_up hs) (state_of hs) (reason_of hs) version model

-- The passthrough mode: the one backend, if it is wired.
unfoldable pub single : Option InferenceBackend → Result BackendHealth
unfolding backend_health_of
single none = backend_health_of true false unknown not_wired null none
single (some backend) = elim backend.health [
  | err thrown ↦ backend_health_of true false unreachable probe_raised null none
  | ok h ↦
      backend_health_of h.configured h.is_reachable (of_backend h.state) backend_reason
        h.server_version h.model
]

-- The registry that a configured service has.
unfoldable pub registry_of : Option RoutingService → Option (RoutingService × BackendRegistry)
registry_of none = none
registry_of (some s) =
    if configured s then (elim s.backend_registry [ none ↦ none | some r ↦ some (s, r) ]) else none

-- _backend_health
unfoldable pub backend_health : AppState → ℕ → AppState × Result BackendHealth
unfolding registry_of aggregate single
backend_health app now = elim (registry_of app.router) [
  | none ↦ (app, single app.backend)
  | some (s, r) ↦
      let (r', answer) = health_map r false now in
      (record app { router = some (record s { backend_registry = some r' }) }, answer >>= aggregate)
]

pub record HealthResponse : Type 0 where
  pub status : String
  pub service : String
  pub backend : BackendHealth
  pub request_id : Option Text

-- The version and the environment of the settings are left out of the answer.
unfoldable pub liveness : AppState → ℕ → Option Text → AppState × Result HealthResponse
unfolding backend_health
liveness app now request_id =
    let (app', report) = backend_health app now in
    (
      app',
      report >>= λ backend.
          ok
            (record { status = "ok"; service = "syn"; backend = backend; request_id = request_id }),
    )

-- The database of the application: none, one without an engine, or one whose query ends in some way.
pub data Database : Type 0 where
  absent no_engine : Database
  queried : Result (Unit {0}) → Database

unfoldable pub database_ok : Database → Bool
database_ok absent = false
database_ok no_engine = false
database_ok (queried (ok done)) = true
database_ok (queried (err thrown)) = false

pub record ReadinessResponse : Type 0 where
  pub status_code : ℕ
  pub status : String
  pub database : String
  pub backend : BackendHealth
  pub request_id : Option Text

unfoldable pub readiness :
    AppState → Database → ℕ → Option Text → AppState × Result ReadinessResponse
unfolding backend_health database_ok
readiness app db now request_id =
    let (app', report) = backend_health app now in
    (
      app',
      report >>= λ backend. ok (record {
        status_code = if database_ok db then 200 else 503;
        status = if database_ok db then "ready" else "not_ready";
        database = if database_ok db then "ok" else "error";
        backend = backend;
        request_id = request_id;
      }),
    )
