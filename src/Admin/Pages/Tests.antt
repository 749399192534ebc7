-- ===== src/Admin/Pages/Tests.antt =====
-- An application with one model, and instances of the theorems about its pages.
use syn.Common.{◌≡◌, refl, true, false, none, some, [], ◌∷◌}
use syn.Common.Text.{Text, codes}
use syn.Common.Json.{null, end}
use syn.Errors.{Result, ok}
use syn.Backend.{InferenceBackend, reachable}
use syn.Routing.BackendRegistry
use syn.Routing.ModelRegistry
use syn.Routing.ModelRegistry.{ModelRegistry}
use syn.Routing.Router.{RoutingService, configured}
use syn.Admin.Pages.{get_models}
use syn.Admin.Pages.Models.{ListsEntries, get_models-ListsEntries}
use syn.Admin.Pages.Backends.{SplitUrl, get_backends}
use syn.Admin.Pages.Backends.Listed.{ListsIds, get_backends-ListsIds}

abbrev gpu_server : InferenceBackend
gpu_server = record {
  name = "llama_cpp";
  base_url = codes "http://gpu:8080";
  capabilities = [];
  health = ok (record {
    state = reachable;
    is_reachable = true;
    configured = true;
    server_version = null;
    model = none;
  });
  models = ok (
      record {
        id = "/models/Foo.gguf";
        object_name = "model";
        owned_by = "llamacpp";
        created = none;
      }
      ∷ []);
}

abbrev the_models : ModelRegistry
the_models = record {
  by_id =
      (
        "local",
        record {
          id = "local";
          backend_id = "gpu";
          backend_model = "Foo.gguf";
          enabled = true;
          aliases = [];
          metadata = end;
        },
      )
      ∷ [];
  by_alias = [];
}

abbrev backends : BackendRegistry.BackendRegistry
backends = BackendRegistry.register (BackendRegistry.init 5) "gpu" gpu_server

abbrev service : RoutingService
service = record {
  model_registry = some the_models;
  backend_registry = some backends;
  passthrough = false;
  get_default_backend = none;
}

abbrev split_gpu : Text → Result SplitUrl
split_gpu url = ok (record { hostname = some (codes "gpu"); port = ok (some 8080) })

get_models-ListsEntries_example :
    ((get_models service 9).1.configured ≡ true)
    × ListsEntries
        (some backends)
        (ModelRegistry.list_all the_models)
        (get_models service 9).1.models
unfolding configured
get_models-ListsEntries_example = get_models-ListsEntries service the_models 9 refl refl

get_backends-ListsIds_example :
    ((get_backends split_gpu service 9).1.configured ≡ true)
    × ListsIds split_gpu backends
        (BackendRegistry.ids backends)
        (get_backends split_gpu service 9).1.backends
unfolding configured
get_backends-ListsIds_example = get_backends-ListsIds split_gpu service backends 9 refl refl
