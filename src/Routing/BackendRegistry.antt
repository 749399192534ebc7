-- ===== src/Routing/BackendRegistry.antt =====
-- app/routing/backend_registry.py: the backends by id, and a cache of their health. The clock is an
-- argument; times are ticks of it.
pub mod Health
pub mod Answers
use syn.Common.{
  ℕ, ◌+◌, ◌-◌, ◌≤◌, ◌<◌, String, ◌≡◌, refl, ◌≢◌, ◌⊎◌, inl, inr, Bool, true, false, ◌&&◌, not,
  Option, none, some, List, [], ◌∷◌, map, arith, leb, str_eq, str_eq_iff, if◌then◌else◌,
  Option-cases, Bool-cases,
}
use syn.Common.Dict
use syn.Common.Dict.{Dict, get-put}
use syn.Common.Json.{null}
use syn.Errors.{backend_not_configured, raised, Exn, gateway, other, Result, ok, err}
use syn.Backend.{InferenceBackend, BackendHealthResult, unreachable}

pub record BackendRegistry : Type 0 where
  pub backends : Dict InferenceBackend
  pub health_cache : Dict BackendHealthResult
  pub health_at : Dict ℕ
  pub health_ttl : ℕ

unfoldable pub init : ℕ → BackendRegistry
init ttl = record { backends = []; health_cache = []; health_at = []; health_ttl = ttl }

unfoldable pub register : BackendRegistry → String → InferenceBackend → BackendRegistry
register r backend_id backend = record r { backends = Dict.put r.backends backend_id backend }

unfoldable pub has : BackendRegistry → String → Bool
has r backend_id = Dict.has r.backends backend_id

unfoldable pub ids : BackendRegistry → List String
ids r = Dict.keys r.backends

abbrev pub not_configured : Exn
not_configured = gateway (raised backend_not_configured "backend_not_configured")

unfoldable pub registered : Option InferenceBackend → Result InferenceBackend
registered none = err not_configured
registered (some b) = ok b

unfoldable pub get : BackendRegistry → String → Result InferenceBackend
unfolding registered
get r backend_id = registered (Dict.get r.backends backend_id)

-- Map backend id to backend type name.
unfoldable pub types : BackendRegistry → Dict String
types r = map (λ (e : String × InferenceBackend). (e.0, (e.1).name)) r.backends

-- What a probe that raised counts as.
abbrev pub probe_failed : BackendHealthResult
probe_failed = record {
  state = unreachable;
  is_reachable = false;
  configured = true;
  server_version = null;
  model = none;
}

-- try: await backend.health()
unfoldable pub probe : InferenceBackend → BackendHealthResult
probe b = elim b.health [ ok h ↦ h | err _ ↦ probe_failed ]

-- self._health_at.get(backend_id, 0.0)
cached_at : BackendRegistry → String → ℕ
cached_at r backend_id = elim (Dict.get r.health_at backend_id) [ none ↦ 0 | some t ↦ t ]

refresh :
    BackendRegistry → String → InferenceBackend → ℕ → BackendRegistry × Result BackendHealthResult
unfolding probe
refresh r backend_id b now = (
  record r {
    health_cache = Dict.put r.health_cache backend_id (probe b);
    health_at = Dict.put r.health_at backend_id now;
  },
  ok (probe b),
)

health_of :
    BackendRegistry
    → String
    → Bool
    → ℕ
    → Option InferenceBackend
    → Option BackendHealthResult
    → BackendRegistry × Result BackendHealthResult
unfolding refresh cached_at
health_of r backend_id force now none cached = (r, err not_configured)
health_of r backend_id force now (some b) none = refresh r backend_id b now
health_of r backend_id force now (some b) (some cached) =
    if not force && leb (now - cached_at r backend_id) r.health_ttl
    then (r, ok cached)
    else refresh r backend_id b now

unfoldable pub health :
    BackendRegistry → String → Bool → ℕ → BackendRegistry × Result BackendHealthResult
unfolding health_of
health r backend_id force now =
    health_of r backend_id force now (Dict.get r.backends backend_id)
      (Dict.get r.health_cache backend_id)

-- The loop of `health_map` over the ids, with what has been collected.
unfoldable pub health_loop :
    BackendRegistry
    → List String
    → Bool
    → ℕ
    → Dict BackendHealthResult
    → BackendRegistry × Result (Dict BackendHealthResult)
health_loop r [] force now out = (r, ok out)
health_loop r (k ∷ ks) force now out =
    let (r', answer) = health r k force now in
    elim answer [ ok h ↦ health_loop r' ks force now (Dict.put out k h) | err e ↦ (r', err e) ]

unfoldable pub health_map :
    BackendRegistry → Bool → ℕ → BackendRegistry × Result (Dict BackendHealthResult)
unfolding health_loop
health_map r force now = health_loop r (Dict.keys r.backends) force now []
