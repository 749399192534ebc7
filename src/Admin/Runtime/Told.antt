-- ===== src/Admin/Runtime/Told.antt =====
-- What app/api/admin.py finds out of a backend, as what that backend answers when it is asked.
use syn.Common.{
  ℕ, String, ◌≡◌, refl, inl, inr, ◌⊎◌, true, Option, none, some, List, [], ◌∷◌, Bool-cases,
  Option-cases, if◌then◌else◌,
}
use syn.Common.Dict
use syn.Common.Text.{Text}
use syn.Errors.{ok}
use syn.Backend.{InferenceBackend}
use syn.Routing.BackendRegistry
use syn.Routing.BackendRegistry.{BackendRegistry, probe, health}
use syn.Routing.BackendRegistry.Health.{health-registered}
use syn.Admin.Runtime.{
  BackendRuntime, unreached, discovered_runtime, probed_runtime, runtime_of,
  discover_backend_runtime,
}
use syn.Admin.Runtime.Statuses.{
  IsConsistent, unreached-IsConsistent, discovered_runtime-IsConsistent,
}

-- The backend's own answers to a probe and to a query for its models; nothing of one that is missing.
abbrev pub told : Option InferenceBackend → BackendRuntime
told none = unreached
told (some b) = if (probe b).is_reachable then discovered_runtime b.models else unreached

-- The backend of an id, where there is a registry.
abbrev pub backend_for : Option BackendRegistry → String → Option InferenceBackend
backend_for none k = none
backend_for (some r) k = Dict.get r.backends k

-- A name is among some.
abbrev pub IsAmong : Text → List Text → Type 0
IsAmong name [] = ⊥
IsAmong name (n ∷ ns) = (n ≡ name) ⊎ IsAmong name ns

pub told-IsConsistent : (b : Option InferenceBackend) → IsConsistent (told b)
told-IsConsistent none = unreached-IsConsistent
told-IsConsistent (some b) = elim (Bool-cases (probe b).is_reachable) [
  | inl e ↦ rw e (discovered_runtime-IsConsistent b.models)
  | inr e ↦ rw e unreached-IsConsistent
]

-- A forced query asks the backend.
pub health-forced :
    (r : BackendRegistry) (k : String) (now : ℕ) (b : InferenceBackend)
    → Dict.get r.backends k ≡ some b
    → ((health r k true now).1 ≡ ok (probe b)) × ((health r k true now).0.backends ≡ r.backends)
health-forced r k now b e = elim (health-registered r k true now b e) [
  | inl c ↦ absurd (cc c.3)
  | inr p ↦ (p.0, p.3)
]

-- The runtime that is found is what the backend tells, and the backends stay as they are.
pub discover_backend_runtime-told :
    (r : BackendRegistry) (k : String) (now : ℕ)
    → ((discover_backend_runtime r k now).1 ≡ told (Dict.get r.backends k))
      × ((discover_backend_runtime r k now).0.backends ≡ r.backends)
unfolding discover_backend_runtime runtime_of probed_runtime BackendRegistry.get
discover_backend_runtime-told r k now = elim (Option-cases (Dict.get r.backends k)) [
  | inl e ↦ rw (e, discover_backend_runtime) (refl, refl)
  | inr (b, e) ↦
      let (answer, same) = health-forced r k now b e in
      rw (e, answer, discover_backend_runtime) (refl, same)
]
