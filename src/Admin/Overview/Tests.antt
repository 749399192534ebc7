-- ===== src/Admin/Overview/Tests.antt =====
-- An application with one backend, and an instance of the theorem about its overview.
use syn.Common.{◌≡◌, refl, true, none, some, []}
use syn.Common.Text.{Text, codes}
use syn.Common.Json.{null}
use syn.Errors.{Result, ok, err, other}
use syn.Backend.{InferenceBackend, reachable}
use syn.Admission.{Controller, init}
use syn.Routing.BackendRegistry
use syn.Routing.BackendRegistry.{BackendRegistry}
use syn.Routing.Router.{RoutingService}
use syn.Admin.Pages.Backends.{SplitUrl}
use syn.Admin.Overview.{OverviewOut, get_overview}
use syn.Admin.Overview.Shown.{IsOverview, get_overview-IsOverview}

abbrev gpu_server : InferenceBackend
gpu_server = record {
  name = "llama_cpp";
  base_url = codes "http://gpu:8080";
  capabilities = [];
  health = ok (record {
    state = reachable;
    is_reachable = true;
    configured = true;
    server_version = null;
    model = some (codes "Foo.gguf");
  });
  models = err other;
}

abbrev gpu_registry : BackendRegistry
gpu_registry = BackendRegistry.register (BackendRegistry.init 5) "gpu" gpu_server

abbrev gpu_service : RoutingService
gpu_service = record {
  model_registry = none;
  backend_registry = some gpu_registry;
  passthrough = true;
  get_default_backend = none;
}

abbrev two_slots : Controller
two_slots = (init 2 8 30).ctl

abbrev bad_port : Text → Result SplitUrl
bad_port url = ok (record { hostname = some (codes "gpu"); port = err other })

get_overview-IsOverview_example :
    (o : OverviewOut) × ((get_overview bad_port true
        (some two_slots)
        (some gpu_service)
        9
        86400
        100000
        []).1
      ≡ ok o)
    × IsOverview (some two_slots) gpu_service gpu_registry 86400 100000 [] o
get_overview-IsOverview_example =
    get_overview-IsOverview bad_port (some two_slots) gpu_service gpu_registry 9 86400 100000 []
      refl
