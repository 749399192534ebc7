-- ===== src/Admin/Pages/Backends/Listed.antt =====
-- What the pages of the backends in app/api/admin.py list.
use syn.Common.{
  none, sym, ◌∙◌, Option-cases, str_eq_refl, arith, true, false, if◌then◌else◌, ℕ, String, ◌≡◌,
  refl, ◌⊎◌, inl, inr, Option, some, List, [], ◌∷◌, All,
}
use syn.Common.Dict
use syn.Common.Dict.{elem, elem-keys}
use syn.Common.Json.{null}
use syn.Common.Text.{Text}
use syn.Errors.{Exn, Result, ok, err}
use syn.Schemas.{optional_str}
use syn.Backend.{InferenceBackend, BackendHealthResult}
use syn.Routing.BackendRegistry.{BackendRegistry, probe}
use syn.Routing.BackendRegistry
use syn.Routing.Router.{RoutingService, configured}
use syn.LlamaCpp.Names.{IsPlainName}
use syn.Admin.Runtime.Told.{told, told-IsConsistent, health-forced, discover_backend_runtime-told}
use syn.Admin.Pages.Backends.{
  SplitUrl, BackendListItem, failed_item, primary_runtime, item_or, safe_backend_endpoint,
  backend_item, listed_item, listed_backend, listed_backends, get_backends, if_up,
}

-- The first of some names, or what stands in for it.
abbrev pub first_or : List Text → Option Text → Option Text
first_or [] absent = absent
first_or (n ∷ ns) absent = some n

primary_runtime-first_or :
    (names : List Text) (h : BackendHealthResult)
    → primary_runtime names h ≡ first_or names (if h.is_reachable then h.model else none)
unfolding primary_runtime if_up
primary_runtime-first_or [] h = refl
primary_runtime-first_or (n ∷ ns) h = refl

-- What an item tells of a backend that could be listed: whether a probe reaches it, the names that it
-- tells, none of which is a path, and the first of them, or else the model that its probe names.
pub record IsTold (b : InferenceBackend) (item : BackendListItem) : Type 0 where
  pub same_reachable : item.is_reachable ≡ (probe b).is_reachable
  pub same_names : item.runtime_models ≡ (told (some b)).runtime_models
  pub plain_names : All IsPlainName item.runtime_models
  pub shown_first :
      item.runtime_model
      ≡ first_or item.runtime_models (if (probe b).is_reachable then (probe b).model else none)

-- An item without any answer of the backend.
pub record IsFailed (item : BackendListItem) : Type 0 where
  pub not_reachable : item.is_reachable ≡ false
  pub no_names : item.runtime_models ≡ []
  pub no_model : item.runtime_model ≡ none

module _ (urlsplit : Text → Result SplitUrl) where
  -- Why a backend that answers cannot be listed: its address, or its version, is refused.
  abbrev pub Refused : BackendRegistry → String → InferenceBackend → Type 0
  Refused r k b =
      (e : Exn) × ((safe_backend_endpoint urlsplit r k ≡ err e)
        ⊎ (optional_str (if (probe b).is_reachable then (probe b).server_version else null)
            ≡ err e))

  -- The item of a registered backend.
  pub record IsItemOf (r : BackendRegistry) (k : String) (b : InferenceBackend)
      (item : BackendListItem) : Type 0 where
    pub same_id : item.id ≡ k
    pub tells : IsTold b item ⊎ (IsFailed item × Refused r k b)

  backend_item-IsItemOf :
      (r : BackendRegistry) (k : String) (b : InferenceBackend) (endpoint : Result (Option Text))
      (version : Result (Option String))
      → safe_backend_endpoint urlsplit r k ≡ endpoint
      → optional_str (if (probe b).is_reachable then (probe b).server_version else null) ≡ version
      → IsItemOf r k b
          (item_or (failed_item r k) (backend_item urlsplit r k (probe b) (told (some b))))
  unfolding item_or backend_item if_up
  backend_item-IsItemOf r k b (err e) v he hv =
      rw (he, backend_item)
        (record {
          same_id = refl;
          tells =
              inr (record { not_reachable = refl; no_names = refl; no_model = refl }, (e, inl he));
        })
  backend_item-IsItemOf r k b (ok p) (err e) he hv =
      rw (he, hv, backend_item)
        (record {
          same_id = refl;
          tells =
              inr (record { not_reachable = refl; no_names = refl; no_model = refl }, (e, inr hv));
        })
  backend_item-IsItemOf r k b (ok p) (ok v) he hv =
      rw (he, hv, backend_item)
        (record {
          same_id = refl;
          tells = inl (record {
            same_reachable = refl;
            same_names = refl;
            plain_names = (told-IsConsistent (some b)).plain_names;
            shown_first = primary_runtime-first_or (told (some b)).runtime_models (probe b);
          });
        })

  listed_backend-IsItemOf :
      (r : BackendRegistry) (k : String) (now : ℕ) (b : InferenceBackend)
      → Dict.get r.backends k ≡ some b
      → IsItemOf r k b (listed_backend urlsplit r k now).1
        × ((listed_backend urlsplit r k now).0.backends ≡ r.backends)
  unfolding listed_backend listed_item
  listed_backend-IsItemOf r k now b e =
      let (answer, same) = health-forced r k now b e in
      let (runtime, same') =
        discover_backend_runtime-told (BackendRegistry.health r k true now).0 k now in
      rw (answer, runtime, same, e, listed_item)
        (backend_item-IsItemOf r k b _ _ refl refl, same' ∙ same)

  safe_backend_endpoint-same :
      (r r' : BackendRegistry) (k : String)
      → r'.backends ≡ r.backends
      → safe_backend_endpoint urlsplit r' k ≡ safe_backend_endpoint urlsplit r k
  unfolding safe_backend_endpoint BackendRegistry.get
  safe_backend_endpoint-same r r' k same = rw same refl

  IsItemOf-same :
      (r r' : BackendRegistry) (k : String) (b : InferenceBackend) (item : BackendListItem)
      → r'.backends ≡ r.backends
      → IsItemOf r' k b item
      → IsItemOf r k b item
  IsItemOf-same r r' k b item same v = record {
    same_id = v.same_id;
    tells = elim v.tells [
      | inl t ↦ inl t
      | inr (failed, (e, inl raised)) ↦
          inr (failed, (e, inl (sym (safe_backend_endpoint-same r r' k same) ∙ raised)))
      | inr (failed, (e, inr raised)) ↦ inr (failed, (e, inr raised))
    ];
  }

  -- One item for each id of a registered backend, in the order of the ids.
  abbrev pub ListsIds : BackendRegistry → List String → List BackendListItem → Type 0
  ListsIds r [] [] = Unit
  ListsIds r [] (item ∷ items) = ⊥
  ListsIds r (k ∷ ks) [] = ⊥
  ListsIds r (k ∷ ks) (item ∷ items) =
      ((b : InferenceBackend) × (Dict.get r.backends k ≡ some b) × IsItemOf r k b item)
      × ListsIds r ks items

  listed_backends-ListsIds :
      (ks : List String) (r r' : BackendRegistry) (now : ℕ)
      → r'.backends ≡ r.backends
      → ((k : String) → elem k ks ≡ true → Dict.has r.backends k ≡ true)
      → ListsIds r ks (listed_backends urlsplit r' ks now).1
  unfolding listed_backends elem
  listed_backends-ListsIds [] r r' now same known = tt
  listed_backends-ListsIds (k ∷ ks) r r' now same known =
      elim (Option-cases (Dict.get r.backends k)) [
        | inl e ↦ absurd (cc (rw (e, Dict.has) at (known k (rw (str_eq_refl k) refl))))
        | inr (b, e) ↦
            let (item, same') = listed_backend-IsItemOf r' k now b (rw same e) in
            (
              (b, e, IsItemOf-same r r' k b _ same item),
              listed_backends-ListsIds ks r (listed_backend urlsplit r' k now).0 now (same' ∙ same)
                  (λ j h. known j (ground (arith, h))),
            )
      ]

  -- The page of the backends lists every backend of the registry once, in their order, whatever their
  -- probes, their models and the splitting of their addresses answer or raise. An item tells what its
  -- backend answers: whether a probe reaches it, the names of its models, none of which is a path, and
  -- the first of them, or, without such names, the model that the probe of a backend that is up names.
  -- It tells nothing only if the backend's address cannot be split or its version is no text.
  pub get_backends-ListsIds :
      (s : RoutingService) (r : BackendRegistry) (now : ℕ)
      → configured s ≡ true
      → s.backend_registry ≡ some r
      → ((get_backends urlsplit s now).1.configured ≡ true)
        × ListsIds r (BackendRegistry.ids r) (get_backends urlsplit s now).1.backends
  unfolding get_backends BackendRegistry.ids
  get_backends-ListsIds s r now c m =
      rw (c, m, get_backends)
        (
          refl,
          listed_backends-ListsIds (Dict.keys r.backends) r r now refl
              (λ k e. sym (elem-keys r.backends k) ∙ e),
        )
