-- ===== src/Admin/Pages/Models.antt =====
-- What the page of the models in app/api/admin.py shows.
use mathlib.Core.Option.{some-injective}
use syn.Common.{
  str_eq_iff, str_eq_refl, str_eq-cases, arith, if◌then◌else◌, ℕ, String, ◌≡◌, ◌≢◌, refl, ◌∙◌, inl,
  inr, subst, ◌↔◌, ◌||◌, Bool, true, false, Option, none, some, List, [], ◌∷◌, All, is_empty,
  str_eq, Bool-cases, Option-cases,
}
use syn.Common.Dict.{elem, elem-keys, Dict, get-put}
use syn.Common.Dict
use syn.Common.Text.{Text, codes, text_eq}
use syn.Routing.BackendRegistry.{BackendRegistry}
use syn.Routing.BackendRegistry
use syn.Routing.ModelRegistry.{ModelEntry, ModelRegistry}
use syn.Routing.ModelRegistry
use syn.Routing.Router.{RoutingService, configured}
use syn.LlamaCpp.Names.{IsPlainName}
use syn.Admin.Runtime.{
  BackendRuntime, unreached, base_name, discover_backend_runtime, RuntimeStatus, online, offline,
  no_model, error, derive_runtime_status,
}
use syn.Admin.Runtime.Statuses.{IsConsistent}
use syn.Admin.Runtime.Told.{
  told, backend_for, IsAmong, told-IsConsistent, discover_backend_runtime-told,
}
use syn.Admin.Pages.{
  ModelListOut, discover_all, first_match, runtime_model_name, is_online, runtime_or_unreached,
  model_out, models_out, runtimes, get_models,
}

-- What the page shows of a model, given what its backend tells: the entry's own columns, whether the
-- backend was reached, a name that is among those that it tells and no path, loaded exactly when it
-- tells one and when one is shown, and offline exactly when it was not reached.
pub record IsShown (runtime : BackendRuntime) (e : ModelEntry) (m : ModelListOut) : Type 0 where
  pub same_id : m.id ≡ e.id
  pub same_backend : m.backend_id ≡ e.backend_id
  pub same_enabled : m.enabled ≡ e.enabled
  pub same_aliases : m.aliases ≡ e.aliases
  pub same_reachable : m.backend_reachable ≡ runtime.is_reachable
  pub among :
      (name : Text)
      → m.runtime_model ≡ some name
      → IsAmong name runtime.runtime_models × IsPlainName name
  pub loaded_iff : (m.runtime_loaded ≡ true) ↔ (is_empty runtime.runtime_models ≡ false)
  pub named_iff : (m.runtime_loaded ≡ true) ↔ (m.runtime_model ≢ none)
  pub offline_iff : (m.runtime_status ≡ offline) ↔ (m.backend_reachable ≡ false)

first_match-IsAmong :
    (backend_model : Text) (names : List Text) (name : Text)
    → first_match backend_model names ≡ some name
    → IsAmong name names
unfolding first_match
first_match-IsAmong b [] name h = absurd (cc)
first_match-IsAmong b (m ∷ ms) name h = elim (Bool-cases (text_eq m (base_name b) || text_eq m b)) [
  | inl e ↦ inl (some-injective _ _ (rw (e, first_match) at h))
  | inr e ↦ inr (first_match-IsAmong b ms name (rw (e, first_match) at h))
]

runtime_model_name-IsAmong :
    (up : Bool) (names : List Text) (backend_model name : Text)
    → runtime_model_name up names backend_model ≡ some name
    → IsAmong name names
unfolding runtime_model_name
runtime_model_name-IsAmong false names b name h = absurd (cc)
runtime_model_name-IsAmong true [] b name h = absurd (cc)
runtime_model_name-IsAmong true (n ∷ []) b name h = inl (some-injective _ _ h)
runtime_model_name-IsAmong true (n ∷ k ∷ ns) b name h =
    elim (Option-cases (first_match b (n ∷ k ∷ ns))) [
      | inl e ↦ inl (some-injective _ _ (rw (e, runtime_model_name) at h))
      | inr (m, e) ↦ first_match-IsAmong b (n ∷ k ∷ ns) name (e ∙ (rw (e, runtime_model_name) at h))
    ]

IsAmong-IsPlainName :
    (name : Text) (names : List Text)
    → All IsPlainName names
    → IsAmong name names
    → IsPlainName name
IsAmong-IsPlainName name [] a m = absurd m
IsAmong-IsPlainName name (n ∷ ns) (p, a) (inl e) = subst IsPlainName e p
IsAmong-IsPlainName name (n ∷ ns) (p, a) (inr m) = IsAmong-IsPlainName name ns a m

if_same : {A : Type 0} (b : Bool) (x : A) → (if b then x else x) ≡ x
if_same true x = refl
if_same false x = refl

str_eq-swap : (j k : String) → str_eq j k ≡ false → str_eq k j ≡ false
str_eq-swap j k h = ground (arith, h, str_eq_iff j k, str_eq_iff k j)

some-ne-none : {A : Type 0} (o : Option A) (a : A) → o ≡ some a → o ≢ none
some-ne-none o a e n = cc

-- A model is named exactly when the backend was reached and has told one.
runtime_model_name-named :
    (up : Bool) (names : List Text) (backend_model : Text)
    → (runtime_model_name up names backend_model ≢ none) ↔ ((up ≡ true) × (is_empty names ≡ false))
unfolding runtime_model_name
runtime_model_name-named false names b = (λ h. absurd (h refl), λ h. absurd (cc h.0))
runtime_model_name-named true [] b = (λ h. absurd (h refl), λ h. absurd (cc h.1))
runtime_model_name-named true (n ∷ []) b = (λ h. (refl, refl), λ h. some-ne-none _ n refl)
runtime_model_name-named true (n ∷ k ∷ ns) b = elim (Option-cases (first_match b (n ∷ k ∷ ns))) [
  | inl e ↦ (λ h. (refl, refl), λ h. some-ne-none _ n (rw (e, runtime_model_name) refl))
  | inr (m, e) ↦ (λ h. (refl, refl), λ h. some-ne-none _ m (rw (e, runtime_model_name) refl))
]

online_iff : (s : RuntimeStatus) → (is_online s ≡ true) ↔ (s ≡ online)
unfolding is_online
online_iff online = (λ h. refl, λ h. refl)
online_iff offline = (λ h. absurd (cc), λ h. absurd (cc))
online_iff no_model = (λ h. absurd (cc), λ h. absurd (cc))
online_iff error = (λ h. absurd (cc), λ h. absurd (cc))

module _ (r : BackendRuntime) (v : IsConsistent r) where
  reached : is_empty r.runtime_models ≡ false → r.is_reachable ≡ true
  reached full = elim (Bool-cases r.is_reachable) [
    | inl e ↦ e
    | inr e ↦ absurd (cc (v.offline_iff.1 e, v.online_iff.1 full))
  ]

  model_out-IsShown : (entry : ModelEntry) → IsShown r entry (model_out entry r)
  unfolding model_out
  model_out-IsShown entry =
      let b = codes entry.backend_model in
      let named = runtime_model_name-named r.is_reachable r.runtime_models b in
      let is_on = online_iff (derive_runtime_status r.is_reachable r.runtime_models r.has_error) in
      record {
        same_id = refl;
        same_backend = refl;
        same_enabled = refl;
        same_aliases = refl;
        same_reachable = refl;
        among = λ name h.
            let m = runtime_model_name-IsAmong r.is_reachable r.runtime_models b name h in
            (m, IsAmong-IsPlainName name r.runtime_models v.plain_names m);
        loaded_iff = (λ h. v.online_iff.0 (is_on.0 h), λ h. is_on.1 (v.online_iff.1 h));
        named_iff = (
          λ h. let full = v.online_iff.0 (is_on.0 h) in named.1 (reached full, full),
          λ h. is_on.1 (v.online_iff.1 ((named.0 h).1)),
        );
        offline_iff = v.offline_iff;
      }

-- The loop over the backends finds what each of them tells.
discover_all-told :
    (ks : List String) (r : BackendRegistry) (now : ℕ) (found : Dict BackendRuntime) (k : String)
    → Dict.get (discover_all r ks now found).1 k
      ≡ (if elem k ks then some (told (Dict.get r.backends k)) else Dict.get found k)
unfolding discover_all elem
discover_all-told [] r now found k = refl
discover_all-told (j ∷ ks) r now found k =
    let (runtime, same) = discover_backend_runtime-told r j now in
    let next = discover_backend_runtime r j now in
    discover_all-told ks next.0 now (Dict.put found j next.1) k
    ∙ rw (same, get-put found j k next.1, runtime)
        (elim (str_eq-cases j k) [
          | inl e ↦
              rw (e, str_eq_refl k) (if_same (elem k ks) (some (told (Dict.get r.backends k))))
          | inr (ne, e) ↦ rw (e, str_eq-swap j k e) refl
        ])

none_told :
    (r : BackendRegistry) (k : String)
    → Dict.has r.backends k ≡ false
    → unreached ≡ told (Dict.get r.backends k)
none_told r k h = elim (Option-cases (Dict.get r.backends k)) [
  | inl e ↦ rw e refl
  | inr (b, e) ↦ absurd (cc (rw (e, Dict.has) at h))
]

runtimes-told :
    (r : Option BackendRegistry) (now : ℕ) (k : String)
    → runtime_or_unreached (Dict.get (runtimes r now).1 k) ≡ told (backend_for r k)
unfolding runtimes runtime_or_unreached Dict.get BackendRegistry.ids
runtimes-told none now k = refl
runtimes-told (some r) now k = elim (Bool-cases (Dict.has r.backends k)) [
  | inl e ↦ rw (discover_all-told (Dict.keys r.backends) r now [] k, elem-keys r.backends k, e) refl
  | inr e ↦
      rw (discover_all-told (Dict.keys r.backends) r now [] k, elem-keys r.backends k, e)
        (none_told r k e)
]

-- The entries and what is shown of them, one for one.
abbrev pub ListsEntries : Option BackendRegistry → List ModelEntry → List ModelListOut → Type 0
ListsEntries r [] [] = Unit
ListsEntries r [] (m ∷ ms) = ⊥
ListsEntries r (e ∷ es) [] = ⊥
ListsEntries r (e ∷ es) (m ∷ ms) =
    IsShown (told (backend_for r e.backend_id)) e m × ListsEntries r es ms

models_out-ListsEntries :
    (r : Option BackendRegistry) (entries : List ModelEntry) (found : Dict BackendRuntime)
    → ((k : String) → runtime_or_unreached (Dict.get found k) ≡ told (backend_for r k))
    → ListsEntries r entries (models_out entries found)
unfolding models_out
models_out-ListsEntries r [] found a = tt
models_out-ListsEntries r (e ∷ entries) found a =
    let b = backend_for r e.backend_id in
    (
      rw (a e.backend_id) (model_out-IsShown (told b) (told-IsConsistent b) e),
      models_out-ListsEntries r entries found a,
    )

-- The page of the models lists the entries of the registry, enabled or not, in their order and with
-- their columns. Of each it tells what the entry's own backend answers to a probe and to a query for
-- its models: whether it was reached, and a name that it tells, which is no path. A model is said to
-- be loaded exactly when its backend was reached and tells a name, and offline exactly when it was
-- not reached; a backend that is not registered was not.
pub get_models-ListsEntries :
    (s : RoutingService) (models : ModelRegistry) (now : ℕ)
    → configured s ≡ true
    → s.model_registry ≡ some models
    → ((get_models s now).1.configured ≡ true)
      × ListsEntries s.backend_registry (ModelRegistry.list_all models) (get_models s now).1.models
unfolding get_models
get_models-ListsEntries s models now c m =
    rw (c, m, get_models)
      (
        refl,
        models_out-ListsEntries s.backend_registry (ModelRegistry.list_all models)
            (runtimes s.backend_registry now).1 (runtimes-told s.backend_registry now),
      )
