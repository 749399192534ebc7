-- ===== src/Chat/Dispatch.antt =====
-- How app/api/chat.py chooses a backend for a chat request: the precheck, the routing or the
-- legacy checks, and the request for the backend.
pub mod Permitted
mod Tests
use syn.Common.{ℕ, String, Bool, true, false, ◌&&◌, not, Option, none, some, List, [], ◌∷◌, map}
use syn.Common.Dict.{elem}
use syn.Errors.{syn_error, make, SynError, Exn, gateway, Result, ok, err, ◌>>=◌, ◌>>◌, reject_if}
use syn.Backend.{
  BackendCapability, chat_completions, streaming, BackendModelInfo, InferenceBackend,
  has_capability,
}
use syn.Principal.{AuthenticatedPrincipal, can_use_model}
use syn.Routing.Router.{
  RouteDecision, RoutingService, configured, discovery_error, forbidden, reject, route,
}
use syn.Usage.{UsageService, UsageRecord, ApiKey, Client, Readings, QuotaCheckResult, precheck}
use syn.LlamaCpp.Completion.{ChatCompletionRequest}

-- What the application may have been given.
pub record AppState : Type 0 where
  pub usage_service : Option UsageService
  pub router : Option RoutingService
  pub backend : Option InferenceBackend

-- _get_router: without a routing service, one that passes through to the backend.
unfoldable pub get_router : AppState → Result RoutingService
get_router app = elim app.router [
  | some service ↦ ok service
  | none ↦ elim app.backend [
    | none ↦ err (gateway (make syn_error (some "routing_not_wired") (some 503) none))
    | some backend ↦ ok (record {
      model_registry = none;
      backend_registry = none;
      passthrough = true;
      get_default_backend = some (some backend);
    })
  ]
]

unfoldable pub get_backend : AppState → Result InferenceBackend
get_backend app = elim app.backend [
  | none ↦ err (gateway (make syn_error (some "backend_not_wired") (some 503) none))
  | some backend ↦ ok backend
]

unfoldable pub check_capability : InferenceBackend → BackendCapability → Result (Unit {0})
check_capability backend capability =
    reject_if (not (has_capability capability backend.capabilities))
      (make syn_error (some "capability_not_supported") (some 501) none)

-- A stream wants a backend that streams.
unfoldable pub check_stream : Bool → InferenceBackend → Result (Unit {0})
check_stream stream backend =
    reject_if (stream && not (has_capability streaming backend.capabilities))
      (make syn_error (some "stream_not_supported") (some 400) (some "stream"))

-- _get_available_models, whose handlers are those of the model list
unfoldable pub available_models : Result (List BackendModelInfo) → Result (List String)
available_models (err e) = err (discovery_error e)
available_models (ok models) = ok (map (λ (m : BackendModelInfo). m.id) models)

-- _validate_and_normalize_request: what a request of the legacy mode must pass
unfoldable pub validate_request :
    String → Bool → List String → AuthenticatedPrincipal → InferenceBackend → Result (Unit {0})
unfolding check_stream
validate_request model stream available principal backend =
    reject_if (not (elem model available))
      (make syn_error (some "model_not_found") (some 404) (some "model"))
    >> (reject (not (can_use_model principal model)) forbidden >> check_stream stream backend)

-- What is handed on to the streaming or the other completion.
pub record Dispatched : Type 0 where
  pub backend : InferenceBackend
  pub request : ChatCompletionRequest
  pub stream : Bool
  pub canonical_model : String
  pub backend_id : Option String

dispatch_configured :
    RoutingService → ChatCompletionRequest → Bool → AuthenticatedPrincipal → Result Dispatched
unfolding check_capability check_stream
dispatch_configured service body stream principal = do
  decision ← route service body.model principal
  supported ← check_capability decision.backend chat_completions
  streams ← check_stream stream decision.backend
  ok (record {
    backend = decision.backend;
    request = record body { model = decision.backend_model };
    stream = stream;
    canonical_model = decision.canonical_model;
    backend_id = some decision.backend_id;
  })

dispatch_passthrough :
    AppState → ChatCompletionRequest → Bool → AuthenticatedPrincipal → Result Dispatched
unfolding get_backend check_capability available_models validate_request
dispatch_passthrough app body stream principal = do
  backend ← get_backend app
  supported ← check_capability backend chat_completions
  available ← available_models backend.models
  valid ← validate_request body.model stream available principal backend
  ok (record {
    backend = backend;
    request = body;
    stream = stream;
    canonical_model = body.model;
    backend_id = none;
  })

-- if routing_svc.configured
unfoldable pub dispatch_if :
    Bool
    → AppState
    → ChatCompletionRequest
    → Bool
    → AuthenticatedPrincipal
    → RoutingService
    → Result Dispatched
unfolding dispatch_configured dispatch_passthrough
dispatch_if true app body stream principal service =
    dispatch_configured service body stream principal
dispatch_if false app body stream principal service = dispatch_passthrough app body stream principal

-- if usage_service is not None: await usage_service.precheck(...)
unfoldable pub prechecked :
    Option UsageService
    → Readings
    → List UsageRecord
    → ApiKey
    → Client
    → Option UsageService × Result (Unit {0})
prechecked none now table api_key client = (none, ok tt)
prechecked (some service) now table api_key client =
    let (service', answer) = precheck service now table api_key client in
    (some service', answer >>= λ checked. ok tt)

-- create_chat_completion, up to the call of one of the two completions
unfoldable pub create_chat_completion :
    AppState
    → Readings
    → List UsageRecord
    → ApiKey
    → Client
    → AuthenticatedPrincipal
    → ChatCompletionRequest
    → Bool
    → AppState × Result Dispatched
unfolding prechecked get_router dispatch_if
create_chat_completion app now table api_key client principal body stream =
    let (usage, checked) = prechecked app.usage_service now table api_key client in
    (
      record app { usage_service = usage },
      do
        admitted ← checked
        service ← get_router app
        dispatch_if (configured service) app body stream principal service,
    )
