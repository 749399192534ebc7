-- ===== src/Health/Tests.antt =====
-- Health reports of a configured gateway, and the theorem at one.
use syn.Common.{◌≡◌, refl, true, false, none, some, [], ◌∷◌}
use syn.Common.Dict
use syn.Common.Json.{Json, null, num, str}
use syn.Common.Text.{codes}
use syn.Errors.{other, ok, err}
use syn.Backend.{
  BackendHealthResult, InferenceBackend, health_probe, reachable, unreachable as no_answer,
}
use syn.Routing.BackendRegistry.{BackendRegistry, health_map, health}
use syn.Routing.Router.{RoutingService, configured}
use syn.Chat.Dispatch.{AppState}
use syn.Health.{healthy, degraded, all_reachable, unreachable_backends, aggregate, backend_health}

abbrev up : Json → BackendHealthResult
up version = record {
  state = reachable;
  is_reachable = true;
  configured = true;
  server_version = version;
  model = some (codes "tiny");
}

abbrev down : BackendHealthResult
down = record {
  state = no_answer;
  is_reachable = false;
  configured = true;
  server_version = null;
  model = none;
}

abbrev server : BackendHealthResult → InferenceBackend
server h = record {
  name = "llama_cpp";
  base_url = [];
  capabilities = health_probe ∷ [];
  health = ok h;
  models = ok [];
}

abbrev registry : BackendRegistry
registry = record {
  backends = ("cpu", server down) ∷ ("gpu", server (up (str "b1"))) ∷ [];
  health_cache = [];
  health_at = [];
  health_ttl = 5;
}

abbrev service : BackendRegistry → RoutingService
service r = record {
  model_registry = none;
  backend_registry = some r;
  passthrough = false;
  get_default_backend = none;
}

abbrev app : AppState
app = record { usage_service = none; router = some (service registry); backend = none }

told :
    (backend_health app 100).1
    ≡ ok (record {
      configured = true;
      is_reachable = true;
      state = degraded;
      reason = unreachable_backends ("cpu" ∷ []);
      server_version = some "b1";
      model = some (codes "tiny");
    })
unfolding backend_health health_map health Dict.get Dict.put Dict.keys configured
told = refl

-- A version that is a number makes the report raise.
raises_for_a_number : aggregate (("gpu", up (num 7)) ∷ []) ≡ err other
unfolding aggregate
raises_for_a_number = refl

-- No backends at all are all reachable.
nothing_is_healthy :
    aggregate []
    ≡ ok (record {
      configured = true;
      is_reachable = true;
      state = healthy;
      reason = all_reachable 0;
      server_version = none;
      model = none;
    })
unfolding aggregate
nothing_is_healthy = refl
