-- ===== src/Admin/Runtime.antt =====
-- The routes of app/api/admin.py that look at the routing and at the backends. The texts of errors are
-- left out: an error is there or not.
pub mod Statuses
pub mod Told
mod Tests
use syn.Common.{
  ℕ, String, Bool, true, false, ◌||◌, not, Option, none, some, List, [], ◌∷◌, is_empty,
  if◌then◌else◌,
}
use syn.Common.Text.{Text, codes, has_char, split}
use syn.Errors.{syn_error, make, Exn, gateway, Result, ok, err}
use syn.Backend.{BackendHealthResult, BackendModelInfo, InferenceBackend}
use syn.Principal.{AuthenticatedPrincipal}
use syn.Routing.BackendRegistry
use syn.Routing.BackendRegistry.{BackendRegistry}
use syn.Routing.Router.{RoutingService, RouteDecision, Reason, route}
use syn.LlamaCpp.{forward_slashes, last_piece}

pub record BackendRuntime : Type 0 where
  pub is_reachable : Bool
  pub runtime_models : List Text
  pub has_error : Bool

abbrev pub unreached : BackendRuntime
unreached = record { is_reachable = false; runtime_models = []; has_error = true }

-- The name of a model without the folders of a path.
unfoldable pub base_name : Text → Text
unfolding forward_slashes last_piece
base_name name =
    if has_char b'\\' name || has_char b'/' name
    then last_piece (split b'/' (forward_slashes name))
    else name

-- The loop over the discovered models; names that are empty are passed over.
unfoldable pub runtime_names : List BackendModelInfo → List Text
unfolding base_name
runtime_names [] = []
runtime_names (m ∷ ms) =
    let rest = runtime_names ms in
    let name = base_name (codes m.id) in if is_empty name then rest else name ∷ rest

unfoldable pub discovered_runtime : Result (List BackendModelInfo) → BackendRuntime
unfolding runtime_names
discovered_runtime (err e) = record { is_reachable = true; runtime_models = []; has_error = true }
discovered_runtime (ok ms) = record {
  is_reachable = true;
  runtime_models = runtime_names ms;
  has_error = false;
}

-- What is found once the forced probe has been answered.
unfoldable pub probed_runtime : InferenceBackend → Result BackendHealthResult → BackendRuntime
unfolding discovered_runtime
probed_runtime backend (err e) = unreached
probed_runtime backend (ok health) =
    if health.is_reachable then discovered_runtime backend.models else unreached

unfoldable pub runtime_of :
    Result InferenceBackend
    → BackendRegistry × Result BackendHealthResult
    → BackendRegistry
    → BackendRegistry × BackendRuntime
unfolding probed_runtime
runtime_of (err e) probed r = (r, unreached)
runtime_of (ok backend) probed r = (probed.0, probed_runtime backend probed.1)

-- _discover_backend_runtime
unfoldable pub discover_backend_runtime :
    BackendRegistry → String → ℕ → BackendRegistry × BackendRuntime
unfolding runtime_of
discover_backend_runtime r backend_id now =
    runtime_of (BackendRegistry.get r backend_id) (BackendRegistry.health r backend_id true now) r

pub data RuntimeStatus : Type 0 where
  online offline no_model error : RuntimeStatus

-- _derive_runtime_status
unfoldable pub derive_runtime_status : Bool → List Text → Bool → RuntimeStatus
derive_runtime_status backend_reachable runtime_models has_error =
    if has_error
    then if backend_reachable then error else offline
    else if not backend_reachable
    then offline
    else if is_empty runtime_models
    then no_model
    else online

pub record RoutingPreviewResponse : Type 0 where
  pub requested_model : String
  pub canonical_model : String
  pub backend_id : String
  pub reason : Reason
  pub backend_reachable : Bool

-- The principal of a preview, which may use every model.
abbrev pub preview_principal : AuthenticatedPrincipal
preview_principal = record {
  user_id = "preview";
  user_name = codes "preview";
  client_id = "preview";
  client_name = codes "preview";
  api_key_id = "preview";
  api_key_prefix = codes "preview";
  allowed_models = none;
}

-- except Exception: False
unfoldable pub is_reachable_or_false : Result BackendHealthResult → Bool
is_reachable_or_false (ok health) = health.is_reachable
is_reachable_or_false (err e) = false

-- A service without a registry of backends counts as reachable.
unfoldable pub preview_health : Option BackendRegistry → String → ℕ → Option BackendRegistry × Bool
unfolding is_reachable_or_false
preview_health none backend_id now = (none, true)
preview_health (some r) backend_id now =
    let (r', answer) = BackendRegistry.health r backend_id false now in
    (some r', is_reachable_or_false answer)

unfoldable pub preview_of : Result RouteDecision → Bool → Result RoutingPreviewResponse
preview_of (err e) backend_reachable =
    err (gateway (make syn_error (some "routing_preview_failed") (some 400) none))
preview_of (ok d) backend_reachable = ok (record {
  requested_model = d.requested_model;
  canonical_model = d.canonical_model;
  backend_id = d.backend_id;
  reason = d.reason;
  backend_reachable = backend_reachable;
})

-- The service's registry of backends after the query of the health.
unfoldable pub previewed :
    RoutingService → ℕ → Result RouteDecision → RoutingService × Result RoutingPreviewResponse
unfolding preview_health preview_of
previewed s now (err e) = (s, preview_of (err e) false)
previewed s now (ok d) =
    let (registry, backend_reachable) = preview_health s.backend_registry d.backend_id now in
    (record s { backend_registry = registry }, preview_of (ok d) backend_reachable)

unfoldable pub routing_preview :
    Option RoutingService → String → ℕ → Option RoutingService × Result RoutingPreviewResponse
unfolding previewed
routing_preview none model now =
    (none, err (gateway (make syn_error (some "routing_not_wired") (some 503) none)))
routing_preview (some s) model now =
    let (s', answer) = previewed s now (route s model preview_principal) in (some s', answer)
