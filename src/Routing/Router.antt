-- ===== src/Routing/Router.antt =====
-- app/routing/router.py and app/routing/__init__.py: the choice of a backend for a request.
pub mod Decisions
pub mod Listing
mod Tests
use syn.Common.{
  ℕ, String, Bool, true, false, not, Option, none, some, List, [], ◌∷◌, map, str_eq, if◌then◌else◌,
  select,
}
use syn.Common.Dict.{elem}
use syn.Common.Json.{Fields}
use syn.Errors.{
  SynError, make, raised, syn_error, model_not_found, model_disabled, model_forbidden,
  backend_not_configured, backend_timeout, backend_protocol_error, backend_invalid_response,
  backend_unavailable, ErrorClass, Exn, gateway, other, Result, ok, err, ◌>>=◌, ◌>>◌, reject_if,
  is_backend_unavailable,
}
use syn.Backend.{InferenceBackend, BackendModelInfo}
use syn.Principal.{AuthenticatedPrincipal, can_use_model}
use syn.Routing.Config.{BackendConfig, ModelConfig, ParsedRoutingConfig, parse_routing_config}
use syn.Routing.ModelRegistry
use syn.Routing.ModelRegistry.{ModelEntry, ModelRegistry}
use syn.Routing.ModelRegistry.Total.{entry}
use syn.Routing.BackendRegistry
use syn.Routing.BackendRegistry.{BackendRegistry, not_configured}

pub data Reason : Type 0 where
  passthrough_match alias_match canonical_match : Reason

pub record RouteDecision : Type 0 where
  pub requested_model : String
  pub canonical_model : String
  pub backend_id : String
  pub backend_model : String
  pub reason : Reason
  pub backend : InferenceBackend

-- The default backend's getter may be absent, and may return nothing.
pub record RoutingService : Type 0 where
  pub model_registry : Option ModelRegistry
  pub backend_registry : Option BackendRegistry
  pub passthrough : Bool
  pub get_default_backend : Option (Option InferenceBackend)

unfoldable pub configured : RoutingService → Bool
configured s = not s.passthrough

-- assert x is not None
unfoldable pub assert_some {ℓ} : {A : Type ℓ} → Option A → Result A
assert_some none = err other
assert_some (some a) = ok a

require_default_backend : RoutingService → Result InferenceBackend
require_default_backend s = elim s.get_default_backend [
  | none ↦ err not_configured
  | some none ↦ err not_configured
  | some (some b) ↦ ok b
]

abbrev pub forbidden : Exn
forbidden = gateway (make model_forbidden (some "model_forbidden") (some 403) (some "model"))

abbrev pub disabled : Exn
disabled = gateway (raised model_disabled "model_disabled")

model_ids : List BackendModelInfo → List String
model_ids = map (λ m. m.id)

-- except Exception: discovered = []
discovered_or_none : Result (List BackendModelInfo) → List BackendModelInfo
discovered_or_none (ok ms) = ms
discovered_or_none (err e) = []

unfoldable pub reject : Bool → Exn → Result (Unit {0})
reject true e = err e
reject false e = ok tt

route_passthrough : RoutingService → String → AuthenticatedPrincipal → Result RouteDecision
unfolding require_default_backend discovered_or_none model_ids reject
route_passthrough s requested p = do
  backend ← require_default_backend s
  reject (not (elem requested (model_ids (discovered_or_none backend.models))))
      ModelRegistry.not_found
  reject (not (can_use_model p requested)) forbidden
  ok (record {
    requested_model = requested;
    canonical_model = requested;
    backend_id = "default";
    backend_model = requested;
    reason = passthrough_match;
    backend = backend;
  })

unfoldable pub route_configured :
    RoutingService → String → AuthenticatedPrincipal → Result RouteDecision
unfolding assert_some reject
route_configured s requested p = do
  models ← assert_some s.model_registry
  backends ← assert_some s.backend_registry
  entry ← ModelRegistry.resolve models requested
  reject (not entry.enabled) disabled
  reject (not (can_use_model p entry.id)) forbidden
  backend ← BackendRegistry.get backends entry.backend_id
  ok (record {
    requested_model = requested;
    canonical_model = entry.id;
    backend_id = entry.backend_id;
    backend_model = entry.backend_model;
    reason = if str_eq requested entry.id then canonical_match else alias_match;
    backend = backend;
  })

unfoldable pub route : RoutingService → String → AuthenticatedPrincipal → Result RouteDecision
unfolding route_passthrough
route s requested p =
    if s.passthrough then route_passthrough s requested p else route_configured s requested p

-- The ModelInfo of app/api/chat_schemas.py.
pub record ModelInfo : Type 0 where
  pub id : String
  pub object_name : String
  pub owned_by : String
  pub created : Option ℕ

-- The first of the four handlers of `list_models` that catches an error.
rethrow : ErrorClass → Exn → Exn
rethrow backend_timeout e = gateway (make syn_error (some "backend_timeout") (some 502) none)
rethrow backend_protocol_error e =
    gateway (make syn_error (some "backend_protocol_error") (some 502) none)
rethrow backend_invalid_response e =
    gateway (make syn_error (some "backend_invalid_response") (some 502) none)
rethrow backend_unavailable e =
    gateway (make syn_error (some "backend_unavailable") (some 502) none)
rethrow _ e = e

unfoldable pub discovery_error : Exn → Exn
unfolding rethrow
discovery_error (gateway e) = rethrow e.cls (gateway e)
discovery_error other = other

rethrow_discovery : Result (List BackendModelInfo) → Result (List BackendModelInfo)
unfolding discovery_error
rethrow_discovery (ok ms) = ok ms
rethrow_discovery (err e) = err (discovery_error e)

list_passthrough : RoutingService → AuthenticatedPrincipal → Result (List ModelInfo)
unfolding require_default_backend rethrow_discovery
list_passthrough s p = do
  backend ← require_default_backend s
  discovered ← rethrow_discovery backend.models
  ok (
      map
        (λ m. record {
          id = m.id;
          object_name = m.object_name;
          owned_by = m.owned_by;
          created = m.created;
        })
        (select (λ (m : BackendModelInfo). can_use_model p m.id) discovered))

-- What the loop of `list_models` appends for an entry that the principal may use.
unfoldable pub model_info : ModelEntry → ModelInfo
model_info e = record { id = e.id; object_name = "model"; owned_by = "syn"; created = none }

unfoldable pub list_configured : RoutingService → AuthenticatedPrincipal → Result (List ModelInfo)
unfolding assert_some
list_configured s p = do
  models ← assert_some s.model_registry
  ok (
      map model_info
        (select (λ (e : ModelEntry). can_use_model p e.id) (ModelRegistry.list_enabled models)))

unfoldable pub list_models : RoutingService → AuthenticatedPrincipal → Result (List ModelInfo)
unfolding list_passthrough
list_models s p = if s.passthrough then list_passthrough s p else list_configured s p

-- The loop of `build_routing` that registers a backend for each configured one; how a backend is
-- built from its configuration is given.
unfoldable pub register_all :
    (BackendConfig → InferenceBackend) → List BackendConfig → BackendRegistry → BackendRegistry
register_all build [] r = r
register_all build (b ∷ bs) r = register_all build bs (BackendRegistry.register r b.id (build b))

-- build_routing, after `load_routing_config`; the time to live is the backend's health timeout.
unfoldable pub build_routing :
    (BackendConfig → InferenceBackend)
    → ℕ
    → Option InferenceBackend
    → Option Fields
    → Result RoutingService
build_routing build ttl default_backend none = ok (record {
  model_registry = none;
  backend_registry = none;
  passthrough = true;
  get_default_backend = some default_backend;
})
build_routing build ttl default_backend (some raw) = do
  parsed ← parse_routing_config raw
  models ← ModelRegistry.init (map entry parsed.models)
  ok (record {
    model_registry = some models;
    backend_registry = some (register_all build parsed.backends (BackendRegistry.init ttl));
    passthrough = false;
    get_default_backend = none;
  })
