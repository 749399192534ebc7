-- ===== src/Routing/Router/Decisions.antt =====
-- Which requests app/routing/router.py routes, where to, and with which error it refuses the others,
-- for the service that app/routing/__init__.py builds from an accepted configuration.
use mathlib.Core.Option.{some-injective}
use syn.Common.{
  ℕ, String, ◌≡◌, refl, sym, ap, subst, ◌∙◌, ◌⊎◌, inl, inr, true, false, Option, none, some, List,
  [], ◌∷◌, map, arith, str_eq, str_eq_iff, Bool-cases, Option-cases, All, if◌then◌else◌,
}
use syn.Common.Dict
use syn.Common.Dict.{Dict, elem, get-put}
use syn.Common.Json.{Fields}
use syn.Errors.{Result, ok, err, Exn}
use syn.Backend.{InferenceBackend}
use syn.Principal.{AuthenticatedPrincipal, can_use_model}
use syn.Routing.Distinct.{Distinct}
use syn.Routing.Config.{BackendConfig, ModelConfig, ParsedRoutingConfig, parse_routing_config}
use syn.Routing.Config.Wellformed.{IsWellformed, backend_ids, parse_routing_config-IsWellformed}
use syn.Routing.ModelRegistry
use syn.Routing.ModelRegistry.{ModelEntry, ModelRegistry, not_found, resolve}
use syn.Routing.ModelRegistry.Lookup.{lookup, find_id, find_alias, init-resolve}
use syn.Routing.ModelRegistry.Total.{entry, init-parse_routing_config}
use syn.Routing.BackendRegistry
use syn.Routing.BackendRegistry.{BackendRegistry, register, get}
use syn.Routing.Router.{
  RouteDecision, RoutingService, alias_match, canonical_match, route, route_configured,
  register_all, build_routing, disabled, forbidden,
}

ok-injective {ℓ} : {A : Type ℓ} {a b : A} → ok a ≡ ok b → a ≡ b
ok-injective h = cc

-- The configured backend of an id.
unfoldable pub find_backend : List BackendConfig → String → Option BackendConfig
find_backend [] k = none
find_backend (b ∷ bs) k = if str_eq b.id k then some b else find_backend bs k

find_backend-known :
    (bs : List BackendConfig) (k : String)
    → elem k (backend_ids bs) ≡ true
    → (b : BackendConfig) × (find_backend bs k ≡ some b)
unfolding find_backend elem
find_backend-known [] k h = absurd (cc)
find_backend-known (b ∷ bs) k h = elim (Bool-cases (str_eq b.id k)) [
  | inl e ↦ (b, rw e)
  | inr e ↦ rw e (find_backend-known bs k (ground (arith, e, str_eq_iff b.id k, str_eq_iff k b.id)))
]

module _ (build : BackendConfig → InferenceBackend) where
  register_all_other :
      (bs : List BackendConfig) (r : BackendRegistry) (k : String)
      → elem k (backend_ids bs) ≡ false
      → Dict.get (register_all build bs r).backends k ≡ Dict.get r.backends k
  unfolding register_all register elem
  register_all_other [] r k h = refl
  register_all_other (b ∷ bs) r k h = ground (
    arith,
    register_all_other bs (register r b.id (build b)) k,
    get-put r.backends b.id k (build b),
    str_eq_iff b.id k,
    str_eq_iff k b.id,
  )

  -- With distinct ids, every configured backend is the one that is registered under its id.
  register_all-find_backend :
      (bs : List BackendConfig) (r : BackendRegistry) (k : String) {b : BackendConfig}
      → Distinct (backend_ids bs)
      → find_backend bs k ≡ some b
      → Dict.get (register_all build bs r).backends k ≡ some (build b)
  unfolding register_all register find_backend
  register_all-find_backend [] r k d h = cc
  register_all-find_backend (c ∷ bs) r k {b} d h = elim (Bool-cases (str_eq c.id k)) [
    | inl e ↦
        register_all_other bs (register r c.id (build c)) k
          (subst (λ (x : String). elem x (backend_ids bs) ≡ false) ((str_eq_iff c.id k).0 e) d.0)
        ∙ get-put r.backends c.id k (build c)
        ∙ rw e (ap (λ (x : BackendConfig). some (build x)) (some-injective _ _ (rw e at h)))
    | inr e ↦ register_all-find_backend bs (register r c.id (build c)) k {b = b} d.1 (rw e at h)
  ]

module _ {ℓ} (P : ModelEntry → Type ℓ) where
  find_id-All :
      (es : List ModelEntry) (k : String) {e : ModelEntry} → All P es → find_id es k ≡ some e → P e
  unfolding find_id
  find_id-All [] k h f = absurd (cc)
  find_id-All (x ∷ es) k {e} h f = elim (Bool-cases (str_eq x.id k)) [
    | inl q ↦ subst P (some-injective _ _ (rw q at f)) h.0
    | inr q ↦ find_id-All es k {e = e} h.1 (rw q at f)
  ]

  find_alias-All :
      (es : List ModelEntry) (k : String) {e : ModelEntry}
      → All P es
      → find_alias es k ≡ some e
      → P e
  unfolding find_alias
  find_alias-All [] k h f = absurd (cc)
  find_alias-All (x ∷ es) k {e} h f = elim (Bool-cases (elem k x.aliases)) [
    | inl q ↦ subst P (some-injective _ _ (rw q at f)) h.0
    | inr q ↦ find_alias-All es k {e = e} h.1 (rw q at f)
  ]

  -- What a name stands for is one of the entries; a name that stands for none is not found.
  lookup-cases :
      (es : List ModelEntry) (k : String)
      → All P es
      → (lookup es k ≡ err not_found) ⊎ ((e : ModelEntry) × (lookup es k ≡ ok e) × P e)
  lookup-cases es k h = elim (Option-cases (find_id es k)) [
    | inr (e, f) ↦ inr (e, rw f refl, find_id-All es k h f)
    | inl none_id ↦ elim (Option-cases (find_alias es k)) [
      | inr (e, f) ↦ inr (e, rw (none_id, f) refl, find_alias-All es k h f)
      | inl none_alias ↦ inl (rw (none_id, none_alias) refl)
    ]
  ]

abbrev pub decision : String → ModelEntry → InferenceBackend → RouteDecision
decision k e b = record {
  requested_model = k;
  canonical_model = e.id;
  backend_id = e.backend_id;
  backend_model = e.backend_model;
  reason = if str_eq k e.id then canonical_match else alias_match;
  backend = b;
}

-- What becomes of a request for a known model.
abbrev pub Decided :
    (BackendConfig → InferenceBackend)
    → List BackendConfig
    → AuthenticatedPrincipal
    → String
    → ModelEntry
    → Result RouteDecision
    → Type 0
Decided build backends p k e r =
    ((e.enabled ≡ false) × (r ≡ err disabled))
    ⊎ ((e.enabled ≡ true) × (can_use_model p e.id ≡ false) × (r ≡ err forbidden))
    ⊎ ((e.enabled ≡ true)
        × (can_use_model p e.id ≡ true)
        × (b : BackendConfig) × (find_backend backends e.backend_id ≡ some b)
        × (r ≡ ok (decision k e (build b))))

abbrev pub Routed :
    (BackendConfig → InferenceBackend)
    → ParsedRoutingConfig
    → AuthenticatedPrincipal
    → String
    → Result RouteDecision
    → Type 0
Routed build c p k r =
    ((lookup (map entry c.models) k ≡ err not_found) × (r ≡ err not_found))
    ⊎ ((e : ModelEntry) × (lookup (map entry c.models) k ≡ ok e) × Decided build c.backends p k e r)

-- The service of a configuration: its registry, and its backends by id.
abbrev pub service : ModelRegistry → BackendRegistry → RoutingService
service m b = record {
  model_registry = some m;
  backend_registry = some b;
  passthrough = false;
  get_default_backend = none;
}

route_missing :
    (m : ModelRegistry) (b : BackendRegistry) (p : AuthenticatedPrincipal) (k : String) {x : Exn}
    → resolve m k ≡ err x
    → route (service m b) k p ≡ err x
unfolding route route_configured
route_missing m b p k h = rw h refl

pub route_known :
    (m : ModelRegistry) (r : BackendRegistry) (p : AuthenticatedPrincipal) (k : String)
    (e : ModelEntry) (build : BackendConfig → InferenceBackend) (backends : List BackendConfig)
    → resolve m k ≡ ok e
    → (b : BackendConfig) × (find_backend backends e.backend_id ≡ some b)
      × (Dict.get r.backends e.backend_id ≡ some (build b))
    → Decided build backends p k e (route (service m r) k p)
unfolding route route_configured get
route_known m r p k e build backends h (b, f, g) = elim (Bool-cases e.enabled) [
  | inr off ↦ inl (off, rw h (rw off refl))
  | inl on ↦ elim (Bool-cases (can_use_model p e.id)) [
    | inr no_access ↦ inr (inl (on, no_access, rw h (rw (on, no_access) refl)))
    | inl access ↦ inr (inr (on, access, b, f, rw h (rw (on, access, g) refl)))
  ]
]

abbrev pub Known : ParsedRoutingConfig → ModelEntry → Type 0
Known c e = elem e.backend_id (backend_ids c.backends) ≡ true

pub All-entry :
    (c : ParsedRoutingConfig) (ms : List ModelConfig)
    → All (λ m. elem m.backend_id (backend_ids c.backends) ≡ true) ms
    → All (Known c) (map entry ms)
unfolding entry
All-entry c [] h = tt
All-entry c (m ∷ ms) h = (h.0, All-entry c ms h.1)

-- The registered backend of a known model.
pub entry_backend :
    (build : BackendConfig → InferenceBackend) (ttl : ℕ) (c : ParsedRoutingConfig) (e : ModelEntry)
    → IsWellformed c
    → Known c e
    → (b : BackendConfig) × (find_backend c.backends e.backend_id ≡ some b)
      × (Dict.get (register_all build c.backends (BackendRegistry.init ttl)).backends e.backend_id
          ≡ some (build b))
entry_backend build ttl c e w known =
    let (b, f) = find_backend-known c.backends e.backend_id known in
    (
      b,
      f,
      register_all-find_backend build c.backends (BackendRegistry.init ttl) e.backend_id
          w.backends_distinct f,
    )

Routed-service :
    (build : BackendConfig → InferenceBackend) (ttl : ℕ) (c : ParsedRoutingConfig)
    (m : ModelRegistry) (p : AuthenticatedPrincipal) (k : String)
    → IsWellformed c
    → resolve m k ≡ lookup (map entry c.models) k
    → Routed build c p k
        (route (service m (register_all build c.backends (BackendRegistry.init ttl))) k p)
Routed-service build ttl c m p k w same =
    let r = register_all build c.backends (BackendRegistry.init ttl) in
    elim (lookup-cases (Known c) (map entry c.models) k (All-entry c c.models w.backends_known)) [
      | inl missing ↦ inl (missing, route_missing m r p k (same ∙ missing))
      | inr (e, found, known) ↦ inr (
        e,
        found,
        route_known m r p k e build c.backends (same ∙ found) (entry_backend build ttl c e w known),
      )
    ]

pub build_routing-service :
    (build : BackendConfig → InferenceBackend) (ttl : ℕ) (d : Option InferenceBackend)
    (raw : Fields) {c : ParsedRoutingConfig} {s : RoutingService}
    → parse_routing_config raw ≡ ok c
    → build_routing build ttl d (some raw) ≡ ok s
    → (m : ModelRegistry) × (ModelRegistry.init (map entry c.models) ≡ ok m)
      × (s ≡ service m (register_all build c.backends (BackendRegistry.init ttl)))
unfolding build_routing
build_routing-service build ttl d raw {c} parsed h =
    let (m, e) = init-parse_routing_config raw {c = c} parsed in
    (m, e, sym (ok-injective (rw (parsed, e) at h)))

-- The service of an accepted configuration treats every request in one of four ways: the name is no
-- id and no alias, and the request fails with ModelNotFoundError; or the name stands for a model,
-- and if that is disabled the request fails with ModelDisabledError, else, if the principal may not
-- use the model's own id, whatever name was asked for, with ModelForbiddenError, and else it goes to
-- the configured backend of the model's backend id. So it fails in no other way.
pub route-Routed :
    (build : BackendConfig → InferenceBackend) (ttl : ℕ) (d : Option InferenceBackend)
    (raw : Fields) {c : ParsedRoutingConfig} {s : RoutingService} (p : AuthenticatedPrincipal)
    (k : String)
    → parse_routing_config raw ≡ ok c
    → build_routing build ttl d (some raw) ≡ ok s
    → Routed build c p k (route s k p)
route-Routed build ttl d raw {c} {s} p k parsed built =
    let (m, e, same) = build_routing-service build ttl d raw {c = c} {s = s} parsed built in
    rw same (
      Routed-service build ttl c m p k (parse_routing_config-IsWellformed raw {c = c} parsed)
        ((init-resolve (map entry c.models) {r = m} e).0 k))
