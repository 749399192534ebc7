-- ===== src/Admin/Pages.antt =====
-- The pages of app/api/admin.py that list models and backends for operators, over the lists that the
-- registries hold. Times of the last check and texts of reasons are left out.
pub mod Backends
pub mod Inference
pub mod Models
mod Tests
use syn.Common.{
  ℕ, String, Bool, true, false, ◌||◌, not, Option, none, some, List, [], ◌∷◌, map, if◌then◌else◌,
}
use syn.Common.Dict.{Dict}
use syn.Common.Dict
use syn.Common.Text.{Text, codes, text_eq}
use syn.Routing.BackendRegistry.{BackendRegistry}
use syn.Routing.BackendRegistry
use syn.Routing.ModelRegistry.{ModelEntry, ModelRegistry}
use syn.Routing.ModelRegistry
use syn.Routing.Router.{RoutingService, configured}
use syn.Admin.Runtime.{
  BackendRuntime, unreached, base_name, discover_backend_runtime, RuntimeStatus, online, offline,
  no_model, error, derive_runtime_status,
}

pub record ModelListOut : Type 0 where
  pub id : String
  pub backend_id : String
  pub enabled : Bool
  pub aliases : List String
  pub backend_reachable : Bool
  pub runtime_loaded : Bool
  pub runtime_model : Option Text
  pub runtime_status : RuntimeStatus

pub record ModelsListOut : Type 0 where
  pub configured : Bool
  pub models : List ModelListOut

-- The loop over the backends, with what has been found out.
unfoldable pub discover_all :
    BackendRegistry → List String → ℕ → Dict BackendRuntime → BackendRegistry × Dict BackendRuntime
discover_all r [] now found = (r, found)
discover_all r (k ∷ ks) now found =
    let (r', runtime) = discover_backend_runtime r k now in
    discover_all r' ks now (Dict.put found k runtime)

-- The first name that is the configured one, or its last part.
unfoldable pub first_match : Text → List Text → Option Text
unfolding base_name
first_match backend_model [] = none
first_match backend_model (m ∷ ms) =
    let rest = first_match backend_model ms in
    if text_eq m (base_name backend_model) || text_eq m backend_model then some m else rest

-- The name of the loaded model.
unfoldable pub runtime_model_name : Bool → List Text → Text → Option Text
unfolding first_match
runtime_model_name false names backend_model = none
runtime_model_name true [] backend_model = none
runtime_model_name true (n ∷ []) backend_model = some n
runtime_model_name true (n ∷ k ∷ ns) backend_model = elim (first_match backend_model (n ∷ k ∷ ns)) [
  | none ↦ some n
  | some m ↦ some m
]

-- status == "online"
unfoldable pub is_online : RuntimeStatus → Bool
is_online online = true
is_online offline = false
is_online no_model = false
is_online error = false

-- backend_runtime.get(bid, ...)
unfoldable pub runtime_or_unreached : Option BackendRuntime → BackendRuntime
runtime_or_unreached none = unreached
runtime_or_unreached (some runtime) = runtime

unfoldable pub model_out : ModelEntry → BackendRuntime → ModelListOut
unfolding runtime_model_name is_online
model_out entry runtime =
    let status =
      derive_runtime_status runtime.is_reachable runtime.runtime_models runtime.has_error in
    record {
      id = entry.id;
      backend_id = entry.backend_id;
      enabled = entry.enabled;
      aliases = entry.aliases;
      backend_reachable = runtime.is_reachable;
      runtime_loaded = is_online status;
      runtime_model =
          runtime_model_name runtime.is_reachable runtime.runtime_models
            (codes entry.backend_model);
      runtime_status = status;
    }

unfoldable pub models_out : List ModelEntry → Dict BackendRuntime → List ModelListOut
unfolding model_out runtime_or_unreached
models_out entries found =
    map (λ (e : ModelEntry). model_out e (runtime_or_unreached (Dict.get found e.backend_id)))
      entries

-- What is found out of all backends, if there is a registry of them.
unfoldable pub runtimes : Option BackendRegistry → ℕ → Option BackendRegistry × Dict BackendRuntime
unfolding discover_all
runtimes none now = (none, [])
runtimes (some r) now =
    let (r', found) = discover_all r (BackendRegistry.ids r) now [] in (some r', found)

abbrev pub no_models : ModelsListOut
no_models = record { configured = false; models = [] }

-- get_models, for an application that has a routing service
unfoldable pub get_models : RoutingService → ℕ → RoutingService × ModelsListOut
unfolding models_out runtimes
get_models s now = if not (configured s) then (s, no_models) else (elim s.model_registry [
  | none ↦ (s, no_models)
  | some models ↦
      let (r', found) = runtimes s.backend_registry now in
      (
        record s { backend_registry = r' },
        record { configured = true; models = models_out (ModelRegistry.list_all models) found },
      )
])
