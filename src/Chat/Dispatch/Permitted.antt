-- ===== src/Chat/Dispatch/Permitted.antt =====
-- What a chat request that app/api/chat.py hands on has passed.
use syn.Common.{String, ◌≡◌, refl, sym, ◌∙◌, ap, subst, Bool, true, false, ◌&&◌, not, List, arith}
use syn.Common.Dict.{elem}
use syn.Errors.{SynError, Exn, ok, >>=-cases, >>-cases, reject_if}
use syn.Backend.{chat_completions, streaming, InferenceBackend, has_capability}
use syn.Principal.{AuthenticatedPrincipal, can_use_model}
use syn.Routing.ModelRegistry
use syn.Routing.BackendRegistry
use syn.Routing.Router.{
  RouteDecision, RoutingService, configured, disabled, forbidden, reject, assert_some, route,
  route_configured,
}
use syn.Usage.{UsageRecord, ApiKey, Client, Readings}
use syn.LlamaCpp.Completion.{ChatCompletionRequest}
use syn.Chat.Dispatch.{
  AppState, Dispatched, get_router, get_backend, check_capability, check_stream, available_models,
  validate_request, dispatch_configured, dispatch_passthrough, dispatch_if, prechecked,
  create_chat_completion,
}

-- What a request that is handed on has passed: the model is one that the principal may use, and the
-- backend answers chats, and streams when a stream is wanted.
pub record IsPermitted (principal : AuthenticatedPrincipal) (d : Dispatched) : Type 0 where
  pub may_use : can_use_model principal d.canonical_model ≡ true
  pub answers : has_capability chat_completions d.backend.capabilities ≡ true
  pub streams : d.stream && not (has_capability streaming d.backend.capabilities) ≡ false

reject-ok : (b : Bool) (e : Exn) {u : Unit {0}} → reject (not b) e ≡ ok u → b ≡ true
unfolding reject
reject-ok true e h = refl
reject-ok false e h = absurd (cc)

reject_if-ok : (b : Bool) (e : SynError) {u : Unit {0}} → reject_if b e ≡ ok u → b ≡ false
reject_if-ok true e h = absurd (cc)
reject_if-ok false e h = refl

not-false : (b : Bool) → not b ≡ false → b ≡ true
not-false b h = ground (arith, h)

route_configured-may_use :
    (s : RoutingService) (k : String) (p : AuthenticatedPrincipal) {d : RouteDecision}
    → route_configured s k p ≡ ok d
    → can_use_model p d.canonical_model ≡ true
unfolding route_configured
route_configured-may_use s k p {d} h = >>=-cases (assert_some s.model_registry) _ h (λ models a h1.
    >>=-cases (assert_some s.backend_registry) _ h1 (λ backends b h2.
      >>=-cases (ModelRegistry.resolve models k) _ h2 (λ entry c h3.
        >>-cases (reject (not entry.enabled) disabled) _ h3 (λ u e h4.
          >>-cases (reject (not (can_use_model p entry.id)) forbidden) _ h4 (λ v f h5.
            >>=-cases (BackendRegistry.get backends entry.backend_id) _ h5 (λ backend g h6.
              let same : entry.id ≡ d.canonical_model = cc (h6) in
              ap (λ m. can_use_model p m) (sym same)
              ∙ reject-ok (can_use_model p entry.id) forbidden f))))))

ok-same {ℓ} : {A : Type ℓ} (a b : A) → ok a ≡ ok b → a ≡ b
ok-same a b h = cc

route_is_configured :
    (s : RoutingService) (k : String) (p : AuthenticatedPrincipal)
    → s.passthrough ≡ false
    → route_configured s k p ≡ route s k p
unfolding route
route_is_configured s k p c = rw c refl

permitted :
    (p : AuthenticatedPrincipal) (d : Dispatched) {u v : Unit {0}}
    → can_use_model p d.canonical_model ≡ true
    → check_capability d.backend chat_completions ≡ ok u
    → check_stream d.stream d.backend ≡ ok v
    → IsPermitted p d
unfolding check_capability check_stream
permitted p d m a b = record {
  may_use = m;
  answers = not-false (has_capability chat_completions d.backend.capabilities) (reject_if-ok _ _ a);
  streams = reject_if-ok _ _ b;
}

validate_request-ok :
    (model : String) (stream : Bool) (available : List String) (p : AuthenticatedPrincipal)
    (backend : InferenceBackend) {u : Unit {0}}
    → validate_request model stream available p backend ≡ ok u
    → (can_use_model p model ≡ true) × (check_stream stream backend ≡ ok tt)
unfolding validate_request
validate_request-ok model stream available p backend h =
    >>-cases (reject_if (not (elem model available)) _) _ h (λ u a h1.
      >>-cases (reject (not (can_use_model p model)) forbidden) _ h1
        (λ v b h2. (reject-ok (can_use_model p model) forbidden b, h2)))

dispatch_configured-IsPermitted :
    (s : RoutingService) (body : ChatCompletionRequest) (stream : Bool) (p : AuthenticatedPrincipal)
    {d : Dispatched}
    → s.passthrough ≡ false
    → dispatch_configured s body stream p ≡ ok d
    → IsPermitted p d
unfolding dispatch_configured
dispatch_configured-IsPermitted s body stream p {d} c h =
    >>=-cases (route s body.model p) _ h (λ decision a h1.
      >>=-cases (check_capability decision.backend chat_completions) _ h1 (λ u b h2.
        >>=-cases (check_stream stream decision.backend) _ h2 (λ v e h3.
          let same = ok-same _ d h3 in
          subst (IsPermitted p) same (
            permitted p _
              (route_configured-may_use s body.model p (route_is_configured s body.model p c ∙ a)) b
              e))))

dispatch_passthrough-IsPermitted :
    (app : AppState) (body : ChatCompletionRequest) (stream : Bool) (p : AuthenticatedPrincipal)
    {d : Dispatched}
    → dispatch_passthrough app body stream p ≡ ok d
    → IsPermitted p d
unfolding dispatch_passthrough
dispatch_passthrough-IsPermitted app body stream p {d} h =
    >>=-cases (get_backend app) _ h (λ backend a h1.
      >>=-cases (check_capability backend chat_completions) _ h1 (λ u b h2.
        >>=-cases (available_models backend.models) _ h2 (λ available c h3.
          >>=-cases (validate_request body.model stream available p backend) _ h3 (λ v valid h4.
            let (may, streams) = validate_request-ok body.model stream available p backend valid in
            subst (IsPermitted p) (ok-same _ d h4) (permitted p _ may b streams)))))

dispatch_if-IsPermitted :
    (c : Bool) (app : AppState) (body : ChatCompletionRequest) (stream : Bool)
    (p : AuthenticatedPrincipal) (s : RoutingService) {d : Dispatched}
    → configured s ≡ c
    → dispatch_if c app body stream p s ≡ ok d
    → IsPermitted p d
unfolding dispatch_if configured
dispatch_if-IsPermitted true app body stream p s {d} e h =
    dispatch_configured-IsPermitted s body stream p {d = d} (ground (arith, e)) h
dispatch_if-IsPermitted false app body stream p s {d} e h =
    dispatch_passthrough-IsPermitted app body stream p {d = d} h

-- A chat request that is handed on has passed the precheck of the limits and quotas, if there is a
-- usage service, is for a model that its principal may use, under the name it is recorded with, and goes to a backend
-- that answers chats, and that streams when a stream is wanted, with and without a configured
-- routing.
pub create_chat_completion-IsPermitted :
    (app : AppState) (now : Readings) (table : List UsageRecord) (api_key : ApiKey)
    (client : Client) (p : AuthenticatedPrincipal) (body : ChatCompletionRequest) (stream : Bool)
    (d : Dispatched)
    → (create_chat_completion app now table api_key client p body stream).1 ≡ ok d
    → ((prechecked app.usage_service now table api_key client).1 ≡ ok tt) × IsPermitted p d
unfolding create_chat_completion
create_chat_completion-IsPermitted app now table api_key client p body stream d h =
    >>=-cases (prechecked app.usage_service now table api_key client).1 _ h (λ u a h1.
      >>=-cases (get_router app) _ h1
        (λ s b h2. (a, dispatch_if-IsPermitted (configured s) app body stream p s {d = d} refl h2)))
