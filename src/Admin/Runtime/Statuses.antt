-- ===== src/Admin/Runtime/Statuses.antt =====
-- What app/api/admin.py derives from the runtime information of a backend.
use syn.Common.{
  ℕ, String, ◌≡◌, refl, ◌↔◌, true, false, some, inl, inr, List, [], ◌∷◌, All, is_empty, Bool-cases,
}
use syn.Common.Text.{Text, codes, has_char}
use syn.Errors.{Result, ok, err}
use syn.Backend.{BackendHealthResult, BackendModelInfo, InferenceBackend}
use syn.Routing.BackendRegistry.{BackendRegistry}
use syn.LlamaCpp.{text_or_none, sanitize_model_name}
use syn.Routing.BackendRegistry
use syn.LlamaCpp.Names.{IsPlainName, sanitize_model_name-IsPlainName}
use syn.Admin.Runtime.{
  BackendRuntime, unreached, base_name, runtime_names, discovered_runtime, probed_runtime,
  runtime_of, discover_backend_runtime, online, offline, derive_runtime_status,
}

text_or_none-nonempty : (s : Text) → is_empty s ≡ false → text_or_none s ≡ some s
unfolding text_or_none
text_or_none-nonempty [] h = absurd (cc)
text_or_none-nonempty (c ∷ s) h = refl

base_name-IsPlainName :
    (name : Text) → is_empty (base_name name) ≡ false → IsPlainName (base_name name)
unfolding base_name sanitize_model_name has_char
base_name-IsPlainName [] h = absurd (cc)
base_name-IsPlainName (c ∷ s) h =
    sanitize_model_name-IsPlainName (c ∷ s) (base_name (c ∷ s))
      (text_or_none-nonempty (base_name (c ∷ s)) h)

runtime_names-IsPlainName : (ms : List BackendModelInfo) → All IsPlainName (runtime_names ms)
unfolding runtime_names
runtime_names-IsPlainName [] = tt
runtime_names-IsPlainName (m ∷ ms) = elim (Bool-cases (is_empty (base_name (codes m.id)))) [
  | inl e ↦ rw e (runtime_names-IsPlainName ms)
  | inr e ↦ rw e (base_name-IsPlainName (codes m.id) e, runtime_names-IsPlainName ms)
]

-- What is found out about a backend: no model name is a path, the status is offline exactly when the
-- backend was not reached, and online exactly when it was and has told a model.
pub record IsConsistent (r : BackendRuntime) : Type 0 where
  pub plain_names : All IsPlainName r.runtime_models
  pub offline_iff :
      (derive_runtime_status r.is_reachable r.runtime_models r.has_error ≡ offline)
      ↔ (r.is_reachable ≡ false)
  pub online_iff :
      (derive_runtime_status r.is_reachable r.runtime_models r.has_error ≡ online)
      ↔ (is_empty r.runtime_models ≡ false)

pub unreached-IsConsistent : IsConsistent unreached
unfolding derive_runtime_status
unreached-IsConsistent = record {
  plain_names = tt;
  offline_iff = (λ h. refl, λ h. refl);
  online_iff = (λ h. absurd (cc), λ h. absurd (cc));
}

found-IsConsistent :
    (names : List Text)
    → All IsPlainName names
    → IsConsistent (record { is_reachable = true; runtime_models = names; has_error = false })
unfolding derive_runtime_status
found-IsConsistent [] a = record {
  plain_names = tt;
  offline_iff = (λ h. absurd (cc), λ h. absurd (cc));
  online_iff = (λ h. absurd (cc), λ h. absurd (cc));
}
found-IsConsistent (n ∷ ns) a = record {
  plain_names = a;
  offline_iff = (λ h. absurd (cc), λ h. absurd (cc));
  online_iff = (λ h. refl, λ h. refl);
}

pub discovered_runtime-IsConsistent :
    (found : Result (List BackendModelInfo)) → IsConsistent (discovered_runtime found)
unfolding discovered_runtime derive_runtime_status
discovered_runtime-IsConsistent (err e) = record {
  plain_names = tt;
  offline_iff = (λ h. absurd (cc), λ h. absurd (cc));
  online_iff = (λ h. absurd (cc), λ h. absurd (cc));
}
discovered_runtime-IsConsistent (ok ms) =
    found-IsConsistent (runtime_names ms) (runtime_names-IsPlainName ms)

probed_runtime-IsConsistent :
    (backend : InferenceBackend) (probed : Result BackendHealthResult)
    → IsConsistent (probed_runtime backend probed)
unfolding probed_runtime
probed_runtime-IsConsistent backend (err e) = unreached-IsConsistent
probed_runtime-IsConsistent backend (ok health) = elim (Bool-cases (health.is_reachable)) [
  | inl e ↦ rw e (discovered_runtime-IsConsistent backend.models)
  | inr e ↦ rw e unreached-IsConsistent
]

runtime_of-IsConsistent :
    (found : Result InferenceBackend) (probed : BackendRegistry × Result BackendHealthResult)
    (r : BackendRegistry)
    → IsConsistent (runtime_of found probed r).1
unfolding runtime_of
runtime_of-IsConsistent (err e) probed r = unreached-IsConsistent
runtime_of-IsConsistent (ok backend) probed r = probed_runtime-IsConsistent backend probed.1

-- Whatever the registry, the probe and the discovery answer: no name of a model that the
-- administration shows is a path, the derived status is offline exactly when the backend was not
-- reached, and online exactly when a model was found.
pub discover_backend_runtime-IsConsistent :
    (r : BackendRegistry) (backend_id : String) (now : ℕ)
    → IsConsistent (discover_backend_runtime r backend_id now).1
unfolding discover_backend_runtime
discover_backend_runtime-IsConsistent r backend_id now =
    runtime_of-IsConsistent (BackendRegistry.get r backend_id)
      (BackendRegistry.health r backend_id true now) r
