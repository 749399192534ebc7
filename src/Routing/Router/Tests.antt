-- ===== src/Routing/Router/Tests.antt =====
-- A configuration with two models, and instances of the theorems about app/routing.
use syn.Common.{String, ◌≡◌, refl, true, false, none, some, List, [], ◌∷◌, map, All, select}
use syn.Common.Text.{codes}
use syn.Common.Dict
use syn.Common.Dict.{elem}
use syn.Common.Json.{
  null, Json, Items, Fields, bool, str, arr, obj, nil, cons, end, field, get_field, truthy,
  nonempty_text, nonempty_list,
}
use syn.Errors.{ok}
use syn.Backend.{InferenceBackend, BackendHealthResult, health_probe, reachable}
use syn.Principal.{AuthenticatedPrincipal}
use syn.Routing.Config.{
  BackendConfig, ModelConfig, ParsedRoutingConfig, llama_cpp, parse_routing_config, parse_backends,
  parse_backend, parse_models, parse_model, parse_aliases, require, reject, backend_type_of,
  backend_model_of, enabled_of, aliases_of, metadata_of,
}
use syn.Routing.Config.Wellformed.{IsWellformed, parse_routing_config-IsWellformed}
use syn.Routing.ModelRegistry
use syn.Routing.ModelRegistry.{
  ModelRegistry, ModelEntry, add_entries, add_aliases, resolve, list_all, list_enabled,
}
use syn.Routing.ModelRegistry.Lookup.{lookup, init-resolve}
use syn.Routing.ModelRegistry.Total.{entry, init-parse_routing_config}
use syn.Routing.BackendRegistry
use syn.Routing.BackendRegistry.{BackendRegistry, register, health}
use syn.Routing.Router.{RoutingService, ModelInfo, build_routing, register_all, route, list_models}
use syn.Routing.Router.Decisions.{Routed, route-Routed}
use syn.Routing.Router.Listing.{RoutesToItself, list_models-route}

abbrev gpu : Json
gpu = obj (field "id" (str "gpu") (field "base_url" (str "http://127.0.0.1:8080") end))

abbrev general : Json
general = obj (
    field "id" (str "local-general") (
      field "backend_id" (str "gpu") (
        field "backend_model" (str "model.gguf")
          (field "aliases" (arr (cons (str "default") nil)) end))))

abbrev retired : Json
retired =
    obj (field "id" (str "old") (field "backend_id" (str "gpu") (field "enabled" (bool false) end)))

abbrev raw : Fields
raw =
    field "backends" (arr (cons gpu nil))
      (field "models" (arr (cons general (cons retired nil))) end)

abbrev general_model : ModelConfig
general_model = record {
  id = "local-general";
  backend_id = "gpu";
  backend_model = "model.gguf";
  enabled = true;
  aliases = "default" ∷ [];
  metadata = end;
}

abbrev retired_model : ModelConfig
retired_model = record {
  id = "old";
  backend_id = "gpu";
  backend_model = "old";
  enabled = false;
  aliases = [];
  metadata = end;
}

abbrev parsed : ParsedRoutingConfig
parsed = record {
  backends =
      record { id = "gpu"; backend_type = llama_cpp; base_url = "http://127.0.0.1:8080" } ∷ [];
  models = general_model ∷ retired_model ∷ [];
}

raw_parses : parse_routing_config raw ≡ ok parsed
unfolding parse_routing_config parse_backends parse_backend parse_models parse_model parse_aliases
    require reject backend_type_of backend_model_of enabled_of aliases_of metadata_of get_field
    truthy nonempty_text nonempty_list elem
raw_parses = refl

-- The alias of a model may be the id of a model further down: only earlier ids are compared.
abbrev shadowed : Items
shadowed =
    cons
      (obj (
        field "id" (str "a")
          (field "backend_id" (str "gpu") (field "aliases" (arr (cons (str "b") nil)) end))))
      (cons (obj (field "id" (str "b") (field "backend_id" (str "gpu") end))) nil)

collision_is_accepted :
    parse_models shadowed ("gpu" ∷ []) [] [] []
    ≡ ok (
        record {
          id = "a";
          backend_id = "gpu";
          backend_model = "a";
          enabled = true;
          aliases = "b" ∷ [];
          metadata = end;
        }
        ∷ record {
          id = "b";
          backend_id = "gpu";
          backend_model = "b";
          enabled = true;
          aliases = [];
          metadata = end;
        }
        ∷ [])
unfolding parse_models parse_model parse_aliases require reject backend_model_of enabled_of
    aliases_of metadata_of get_field truthy nonempty_text nonempty_list elem
collision_is_accepted = refl

abbrev up : BackendHealthResult
up = record {
  state = reachable;
  is_reachable = true;
  configured = true;
  server_version = null;
  model = none;
}

abbrev server : BackendConfig → InferenceBackend
server b = record {
  name = "llama_cpp";
  base_url = [];
  capabilities = health_probe ∷ [];
  health = ok up;
  models = ok [];
}

abbrev anyone : AuthenticatedPrincipal
anyone = record {
  user_id = "u";
  user_name = codes "user";
  client_id = "c";
  client_name = codes "client";
  api_key_id = "k";
  api_key_prefix = codes "syn_live_abcdefgh";
  allowed_models = none;
}

abbrev registry : ModelRegistry
registry = record {
  by_id = ("local-general", entry general_model) ∷ ("old", entry retired_model) ∷ [];
  by_alias = ("default", "local-general") ∷ [];
}

registry_built : ModelRegistry.init (map entry parsed.models) ≡ ok registry
unfolding ModelRegistry.init add_entries add_aliases entry Dict.get Dict.put
registry_built = refl

abbrev built : RoutingService
built = record {
  model_registry = some registry;
  backend_registry = some (register_all server parsed.backends (BackendRegistry.init 50));
  passthrough = false;
  get_default_backend = none;
}

service_built : build_routing server 50 none (some raw) ≡ ok built
unfolding build_routing
service_built = rw (raw_parses, registry_built) refl

parse_routing_config-IsWellformed_example : IsWellformed parsed
parse_routing_config-IsWellformed_example = parse_routing_config-IsWellformed raw raw_parses

init-resolve_example :
    ((k : String) → resolve registry k ≡ lookup (map entry parsed.models) k)
    × (list_all registry ≡ map entry parsed.models)
    × (list_enabled registry ≡ select (λ e. e.enabled) (map entry parsed.models))
init-resolve_example = init-resolve (map entry parsed.models) registry_built

init-parse_routing_config_example :
    (r : ModelRegistry) × (ModelRegistry.init (map entry parsed.models) ≡ ok r)
init-parse_routing_config_example = init-parse_routing_config raw raw_parses

route-Routed_example : Routed server parsed anyone "default" (route built "default" anyone)
route-Routed_example = route-Routed server 50 none raw anyone "default" raw_parses service_built

list_models-route_example :
    (ms : List ModelInfo) × (list_models built anyone ≡ ok ms)
    × All (RoutesToItself built anyone) ms
list_models-route_example = list_models-route server 50 none raw anyone raw_parses service_built

abbrev gpu_server : InferenceBackend
gpu_server = record {
  name = "llama_cpp";
  base_url = [];
  capabilities = health_probe ∷ [];
  health = ok up;
  models = ok [];
}

abbrev monitored : BackendRegistry
monitored = record {
  backends = ("gpu", gpu_server) ∷ [];
  health_cache = ("gpu", up) ∷ [];
  health_at = ("gpu", 100) ∷ [];
  health_ttl = 50;
}
