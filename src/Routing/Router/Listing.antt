-- ===== src/Routing/Router/Listing.antt =====
-- The models that app/routing/router.py lists are those that it routes to.
use syn.Common.{
  ℕ, String, ◌≡◌, refl, ◌∙◌, inl, inr, Bool, true, false, Option, some, List, [], ◌∷◌, map, arith,
  str_eq, str_eq_refl, Bool-cases, All, select,
}
use syn.Common.Dict.{elem}
use syn.Common.Json.{Fields}
use syn.Errors.{ok}
use syn.Backend.{InferenceBackend}
use syn.Principal.{AuthenticatedPrincipal, can_use_model}
use syn.Routing.Distinct.{Distinct}
use syn.Routing.Config.{BackendConfig, ParsedRoutingConfig, parse_routing_config}
use syn.Routing.Config.Wellformed.{IsWellformed, parse_routing_config-IsWellformed}
use syn.Routing.ModelRegistry.{ModelEntry, ModelRegistry, resolve, list_enabled}
use syn.Routing.ModelRegistry.Lookup.{lookup, find_id, init-resolve}
use syn.Routing.ModelRegistry.Total.{entry, entry_ids, entry_ids-map}
use syn.Routing.BackendRegistry
use syn.Routing.Router.{
  ModelInfo, RouteDecision, RoutingService, route, list_models, list_configured, model_info,
  build_routing, register_all,
}
use syn.Routing.Router.Decisions.{
  Known, All-entry, Decided, service, entry_backend, build_routing-service, route_known,
}

elsewhere :
    (x : String) (es : List ModelEntry)
    → elem x (entry_ids es) ≡ false
    → All (λ e. str_eq x e.id ≡ false) es
unfolding elem
elsewhere x [] h = tt
elsewhere x (e ∷ es) h = (ground arith, elsewhere x es (ground arith))

All-zip {ℓ κ μ} :
    {A : Type ℓ} (P : A → Type κ) (Q : A → Type κ) (R : A → Type μ) (xs : List A)
    → ((a : A) → P a → Q a → R a)
    → All P xs
    → All Q xs
    → All R xs
All-zip P Q R [] f h k = tt
All-zip P Q R (x ∷ xs) f h k = (f x h.0 k.0, All-zip P Q R xs f h.1 k.1)

-- With distinct ids each entry is found under its own id.
found_by_id :
    (es : List ModelEntry) → Distinct (entry_ids es) → All (λ e. find_id es e.id ≡ some e) es
unfolding find_id
found_by_id [] d = tt
found_by_id (x ∷ es) d = (
  rw (str_eq_refl x.id),
  All-zip _ _ _ es (λ a apart found. rw apart found) (elsewhere x.id es d.0) (found_by_id es d.1),
)

All-select {ℓ κ} :
    {A : Type ℓ} (P : A → Type κ) (t : A → Bool) (xs : List A)
    → All P xs
    → All (λ a. P a × (t a ≡ true)) (select t xs)
All-select P t [] h = tt
All-select P t (x ∷ xs) h = elim (Bool-cases (t x)) [
  | inl e ↦ rw e ((h.0, e), All-select P t xs h.1)
  | inr e ↦ rw e (All-select P t xs h.1)
]

-- A name that is routed to the model of that very id.
abbrev pub RoutesToItself : RoutingService → AuthenticatedPrincipal → ModelInfo → Type 0
RoutesToItself s p m = (d : RouteDecision) × (route s m.id p ≡ ok d) × (d.canonical_model ≡ m.id)

Decided-ok :
    (build : BackendConfig → InferenceBackend) (bs : List BackendConfig) (s : RoutingService)
    (p : AuthenticatedPrincipal) (e : ModelEntry)
    → Decided build bs p e.id e (route s e.id p)
    → e.enabled ≡ true
    → can_use_model p e.id ≡ true
    → RoutesToItself s p (model_info e)
unfolding model_info
Decided-ok build bs s p e (inl (off, r)) on can = absurd (cc)
Decided-ok build bs s p e (inr (inl (on', no_access, r))) on can = absurd (cc)
Decided-ok build bs s p e (inr (inr (on', can', b, f, r))) on can = (_, r, refl)

All-map {ℓ κ μ} :
    {A : Type ℓ} {B : Type κ} (P : B → Type μ) (f : A → B) (xs : List A)
    → All (λ a. P (f a)) xs
    → All P (map f xs)
All-map P f [] h = tt
All-map P f (x ∷ xs) h = (h.0, All-map P f xs h.1)

All-mono {ℓ κ μ} :
    {A : Type ℓ} (P : A → Type κ) (Q : A → Type μ) (xs : List A)
    → ((a : A) → P a → Q a)
    → All P xs
    → All Q xs
All-mono P Q [] f h = tt
All-mono P Q (x ∷ xs) f h = (f x h.0, All-mono P Q xs f h.1)

module _ (build : BackendConfig → InferenceBackend) (ttl : ℕ) (c : ParsedRoutingConfig)
    (m : ModelRegistry) (p : AuthenticatedPrincipal) (w : IsWellformed c)
    (resolves : (k : String) → resolve m k ≡ lookup (map entry c.models) k) where
  abbrev its_service : RoutingService
  its_service = service m (register_all build c.backends (BackendRegistry.init ttl))

  routes_to_itself :
      (e : ModelEntry)
      → (find_id (map entry c.models) e.id ≡ some e)
      → Known c e
      → e.enabled ≡ true
      → can_use_model p e.id ≡ true
      → RoutesToItself its_service p (model_info e)
  routes_to_itself e found known on can =
      Decided-ok build c.backends its_service p e
        (route_known m (register_all build c.backends (BackendRegistry.init ttl)) p e.id e build
          c.backends (resolves e.id ∙ rw found refl) (entry_backend build ttl c e w known))
        on can

  listed_route : All (RoutesToItself its_service p) (
      map model_info (
        select
          (λ (e : ModelEntry). can_use_model p e.id)
          (select (λ (e : ModelEntry). e.enabled) (map entry c.models))))
  listed_route =
      let entries = map entry c.models in
      let known = All-entry c c.models w.backends_known in
      let found = found_by_id entries (rw (entry_ids-map c.models) w.models_distinct) in
      All-map (RoutesToItself its_service p) model_info _ (
        All-mono _ _ _ (λ e h. routes_to_itself e h.0.0.0 h.0.0.1 h.0.1 h.1)
          (All-select _ (λ (e : ModelEntry). can_use_model p e.id) _
            (All-select _ (λ (e : ModelEntry). e.enabled) entries
              (All-zip _ _ (λ (e : ModelEntry). (find_id entries e.id ≡ some e) × Known c e) entries
                (λ e f k. (f, k)) found known))))

-- The service of an accepted configuration lists models without an error, and every model that it
-- lists for a principal is one that the principal can have routed, to that model itself.
pub list_models-route :
    (build : BackendConfig → InferenceBackend) (ttl : ℕ) (d : Option InferenceBackend)
    (raw : Fields) {c : ParsedRoutingConfig} {s : RoutingService} (p : AuthenticatedPrincipal)
    → parse_routing_config raw ≡ ok c
    → build_routing build ttl d (some raw) ≡ ok s
    → (ms : List ModelInfo) × (list_models s p ≡ ok ms) × All (RoutesToItself s p) ms
unfolding list_models list_configured
list_models-route build ttl d raw {c} {s} p parsed built =
    let (m, e, same) = build_routing-service build ttl d raw {c = c} {s = s} parsed built in
    let w = parse_routing_config-IsWellformed raw {c = c} parsed in
    let laws = init-resolve (map entry c.models) {r = m} e in
    rw same (
      map model_info (select (λ (x : ModelEntry). can_use_model p x.id) (list_enabled m)),
      refl,
      rw (laws.2) (listed_route build ttl c m p w laws.0),
    )
