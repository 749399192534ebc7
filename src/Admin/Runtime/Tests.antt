-- ===== src/Admin/Runtime/Tests.antt =====
-- Runs of the routes over the backends.
use syn.Common.{◌≡◌, refl, true, none, some, [], ◌∷◌}
use syn.Common.Text.{codes, has_char, split}
use syn.Common.Json.{null}
use syn.Errors.{ok, err, gateway, make, syn_error}
use syn.Backend.{InferenceBackend, reachable}
use syn.Routing.BackendRegistry
use syn.Routing.BackendRegistry.{BackendRegistry}
use syn.Admin.Runtime.{runtime_names, routing_preview}

abbrev local_backend : InferenceBackend
local_backend = record {
  name = "llama_cpp";
  base_url = [];
  capabilities = [];
  health = ok (record {
    state = reachable;
    is_reachable = true;
    configured = true;
    server_version = null;
    model = none;
  });
  models = ok (
      record {
        id = "/models/Foo.gguf";
        object_name = "model";
        owned_by = "llamacpp";
        created = none;
      }
      ∷ []);
}

abbrev registry : BackendRegistry
registry = BackendRegistry.register (BackendRegistry.init 5) "local" local_backend

-- A path is shown by its last part.
no_path :
    runtime_names (
      record {
        id = "/models/Foo.gguf";
        object_name = "model";
        owned_by = "llamacpp";
        created = none;
      }
      ∷ [])
    ≡ codes "Foo.gguf" ∷ []
unfolding runtime_names has_char split
no_path = refl

not_wired :
    (routing_preview none "m" 0).1
    ≡ err (gateway (make syn_error (some "routing_not_wired") (some 503) none))
unfolding routing_preview
not_wired = refl
