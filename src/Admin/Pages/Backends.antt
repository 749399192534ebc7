-- ===== src/Admin/Pages/Backends.antt =====
-- The pages of app/api/admin.py that list the backends, and the list of the backends of
-- the overview. Python's `urlsplit` is an argument.
pub mod Listed
use syn.Common.{
  ℕ, ◌+◌, String, Bool, true, false, ◌&&◌, not, Option, none, some, List, [], ◌∷◌, ◌++◌, is_empty,
  if◌then◌else◌, str_eq,
}
use syn.Common.Dict
use syn.Common.Json.{Json, null}
use syn.Common.Text.{Text, codes, has_char}
use syn.Common.Decimal.{str_of}
use syn.Errors.{Exn, other, Result, ok, err, ◌>>=◌}
use syn.Schemas.{optional_str}
use syn.Backend.{BackendHealthState, BackendHealthResult, InferenceBackend, unknown}
use syn.Routing.BackendRegistry.{BackendRegistry}
use syn.Routing.BackendRegistry
use syn.Routing.Router.{RoutingService, configured}
use syn.Admin.Runtime.{BackendRuntime, discover_backend_runtime}

-- What urlsplit finds of a URL; reading a port that is no number, or too large, raises.
pub record SplitUrl : Type 0 where
  pub hostname : Option Text
  pub port : Result (Option ℕ)

-- The text of `state`: a probe's state, or that no probe was answered.
pub data ListState : Type 0 where
  of_probe : BackendHealthState → ListState
  probe_error : ListState

pub record BackendListItem : Type 0 where
  pub id : String
  pub kind : String
  pub is_reachable : Bool
  pub state : ListState
  pub runtime_model : Option Text
  pub runtime_models : List Text
  pub server_version : Option String
  pub endpoint : Option Text

pub record BackendsListOut : Type 0 where
  pub configured : Bool
  pub backends : List BackendListItem

-- backend_registry.types().get(bid, "unknown")
unfoldable pub kind_of : BackendRegistry → String → String
kind_of r k = elim (Dict.get (BackendRegistry.types r) k) [ none ↦ "unknown" | some t ↦ t ]

-- The item of a backend whose probe, or whose listing, raised.
abbrev pub failed_item : BackendRegistry → String → BackendListItem
failed_item r k = record {
  id = k;
  kind = kind_of r k;
  is_reachable = false;
  state = probe_error;
  runtime_model = none;
  runtime_models = [];
  server_version = none;
  endpoint = none;
}

with_port : Text → Option ℕ → Text
with_port host none = host
with_port host (some n) = host ++ b':' ∷ str_of n

endpoint_of : Option Text → Result (Option ℕ) → Result (Option Text)
unfolding with_port
endpoint_of none port = ok none
endpoint_of (some []) port = ok none
endpoint_of (some (c ∷ s)) port = do
  n ← port
  ok (some (with_port (if has_char b':' (c ∷ s) then b'[' ∷ (c ∷ s) ++ b']' ∷ [] else c ∷ s) n))

-- value if reachable else None
unfoldable pub if_up {ℓ} : {A : Type ℓ} → Bool → A → A → A
if_up up value absent = if up then value else absent

-- runtime_models[0] if runtime_models else (health.model if health.reachable else None)
unfoldable pub primary_runtime : List Text → BackendHealthResult → Option Text
unfolding if_up
primary_runtime [] h = if_up h.is_reachable h.model none
primary_runtime (n ∷ ns) h = some n

-- except Exception
unfoldable pub item_or : BackendListItem → Result BackendListItem → BackendListItem
item_or failed (ok item) = item
item_or failed (err thrown) = failed

module _ (urlsplit : Text → Result SplitUrl) where
  -- _safe_backend_endpoint
  unfoldable pub safe_backend_endpoint : BackendRegistry → String → Result (Option Text)
  unfolding endpoint_of
  safe_backend_endpoint r k = do
    backend ← BackendRegistry.get r k
    parsed ← urlsplit backend.base_url
    endpoint_of parsed.hostname parsed.port

  -- BackendListItem(...), in the page of the backends
  unfoldable pub backend_item :
      BackendRegistry → String → BackendHealthResult → BackendRuntime → Result BackendListItem
  unfolding safe_backend_endpoint primary_runtime if_up
  backend_item r k h runtime = do
    endpoint ← safe_backend_endpoint r k
    server_version ← optional_str (if_up h.is_reachable h.server_version null)
    ok (record {
      id = k;
      kind = kind_of r k;
      is_reachable = h.is_reachable;
      state = of_probe h.state;
      runtime_model = primary_runtime runtime.runtime_models h;
      runtime_models = runtime.runtime_models;
      server_version = server_version;
      endpoint = endpoint;
    })

  -- The item of the overview, which asks for no models.
  unfoldable pub overview_item :
      BackendRegistry → String → BackendHealthResult → Result BackendListItem
  unfolding safe_backend_endpoint if_up
  overview_item r k h = do
    endpoint ← safe_backend_endpoint r k
    server_version ← optional_str (if_up h.is_reachable h.server_version null)
    ok (record {
      id = k;
      kind = kind_of r k;
      is_reachable = h.is_reachable;
      state = of_probe h.state;
      runtime_model = if_up h.is_reachable h.model none;
      runtime_models = [];
      server_version = server_version;
      endpoint = endpoint;
    })

  -- try: ..., from the answer of the probe and, if it has one, what is found out after it
  unfoldable pub listed_item :
      (r : BackendRegistry) (backend_id : String)
      (probed : BackendRegistry × Result BackendHealthResult)
      (found : BackendRegistry × BackendRuntime)
      → BackendRegistry × BackendListItem
  unfolding backend_item item_or
  listed_item r k (r', err thrown) found = (r', failed_item r k)
  listed_item r k (r', ok h) found =
      (found.0, item_or (failed_item r k) (backend_item r k h found.1))

  unfoldable pub listed_backend : BackendRegistry → String → ℕ → BackendRegistry × BackendListItem
  unfolding listed_item
  listed_backend r k now =
      let probed = BackendRegistry.health r k true now in
      listed_item r k probed (discover_backend_runtime probed.0 k now)

  -- The loop of the page of the backends.
  unfoldable pub listed_backends :
      BackendRegistry → List String → ℕ → BackendRegistry × List BackendListItem
  unfolding listed_backend
  listed_backends r [] now = (r, [])
  listed_backends r (k ∷ ks) now =
      let (r', item) = listed_backend r k now in
      let (r'', items) = listed_backends r' ks now in (r'', item ∷ items)

  -- The loop of the overview.
  unfoldable pub overview_backends :
      BackendRegistry → List String → ℕ → BackendRegistry × List BackendListItem
  unfolding overview_item item_or
  overview_backends r [] now = (r, [])
  overview_backends r (k ∷ ks) now =
      let (r', health) = BackendRegistry.health r k true now in
      let (r'', items) = overview_backends r' ks now in
      (r'', item_or (failed_item r k) (health >>= overview_item r k) ∷ items)

  -- get_backends, for an application that has a routing service
  unfoldable pub get_backends : RoutingService → ℕ → RoutingService × BackendsListOut
  unfolding listed_backends
  get_backends s now =
      if not (configured s)
      then (s, record { configured = false; backends = [] })
      else (elim s.backend_registry [
        | none ↦ (s, record { configured = false; backends = [] })
        | some r ↦
            let (r', items) = listed_backends r (BackendRegistry.ids r) now in
            (
              record s { backend_registry = some r' },
              record { configured = true; backends = items },
            )
      ])

  -- The one item of the passthrough mode.
  abbrev pub passthrough_item : BackendListItem
  passthrough_item = record {
    id = "default";
    kind = "passthrough";
    is_reachable = false;
    state = of_probe unknown;
    runtime_model = none;
    runtime_models = [];
    server_version = none;
    endpoint = none;
  }

  -- The list of the backends of get_overview
  unfoldable pub overview_list :
      Option RoutingService → ℕ → Option RoutingService × List BackendListItem
  unfolding overview_backends
  overview_list none now = (none, [])
  overview_list (some s) now = elim s.backend_registry [
    | some r ↦
        let (r', items) = overview_backends r (BackendRegistry.ids r) now in
        (some (record s { backend_registry = some r' }), items)
    | none ↦ (some s, if configured s then [] else passthrough_item ∷ [])
  ]
