-- ===== src/Admin/Pages/Inference/First.antt =====
-- Which backend the local inference of app/api/admin.py's overview is about.
use syn.Common.{
  ◌≡◌, refl, subst, ap, inl, inr, Bool, true, false, Option, none, some, List, [], ◌∷◌, All, ◌++◌,
  Bool-cases, Option-cases,
}
use syn.Common.Text.{Text}
use syn.Admin.Pages.Backends.{BackendListItem}
use syn.Admin.Pages.Inference.{
  LocalInference, local_inference, offline_summary, first_item, is_loaded, InferenceStatus,
  is_online, is_no_model, is_offline,
}

-- The first backend of the list that passes a test.
pub record IsFirst (test : BackendListItem → Bool) (b : BackendListItem)
    (items : List BackendListItem) : Type 0 where
  pub before : List BackendListItem
  pub after : List BackendListItem
  pub listed : items ≡ before ++ b ∷ after
  pub passes : test b ≡ true
  pub earlier : All (λ x. test x ≡ false) before

pub record IsAbout (i : LocalInference) (b : BackendListItem) : Type 0 where
  pub same_id : i.backend ≡ b.id
  pub same_kind : i.kind ≡ b.kind
  pub same_endpoint : i.endpoint ≡ b.endpoint

-- What a status says of the backend that is told of, and of all the others.
abbrev pub Tells :
    List BackendListItem → LocalInference → BackendListItem → InferenceStatus → Type 0
Tells items i b is_online = IsFirst is_loaded b items × (i.model ≡ b.runtime_model)
Tells items i b is_no_model =
    IsFirst (λ x. x.is_reachable) b items × All (λ x. is_loaded x ≡ false) items × (i.model ≡ none)
Tells items i b is_offline =
    IsFirst (λ x. true) b items × All (λ x. x.is_reachable ≡ false) items × (i.model ≡ none)

abbrev pub IsInference : List BackendListItem → Option LocalInference → Type 0
IsInference items none = items ≡ []
IsInference items (some i) = (b : BackendListItem) × IsAbout i b × Tells items i b i.status

FirstFound : (BackendListItem → Bool) → List BackendListItem → Option BackendListItem → Type 0
FirstFound test items none = All (λ x. test x ≡ false) items
FirstFound test items (some b) = IsFirst test b items

later :
    (test : BackendListItem → Bool) (x : BackendListItem) (items : List BackendListItem)
    (found : Option BackendListItem)
    → test x ≡ false
    → FirstFound test items found
    → FirstFound test (x ∷ items) found
unfolding FirstFound
later test x items none e f = (e, f)
later test x items (some b) e f = record {
  before = x ∷ f.before;
  after = f.after;
  listed = ap (λ xs. x ∷ xs) f.listed;
  passes = f.passes;
  earlier = (e, f.earlier);
}

first_item-FirstFound :
    (test : BackendListItem → Bool) (items : List BackendListItem)
    → FirstFound test items (first_item test items)
unfolding FirstFound first_item
first_item-FirstFound test [] = tt
first_item-FirstFound test (x ∷ xs) = elim (Bool-cases (test x)) [
  | inl e ↦
      rw (e, first_item)
        (record { before = []; after = xs; listed = refl; passes = e; earlier = tt })
  | inr e ↦ rw (e, first_item) (later test x xs _ e (first_item-FirstFound test xs))
]

same_backend :
    (status : InferenceStatus) (model : Option Text) (b : BackendListItem)
    → IsAbout
        (record {
          model = model;
          backend = b.id;
          kind = b.kind;
          status = status;
          endpoint = b.endpoint;
        })
        b
same_backend status model b = record { same_id = refl; same_kind = refl; same_endpoint = refl }

offline_summary-IsInference :
    (items : List BackendListItem)
    → All (λ x. x.is_reachable ≡ false) items
    → IsInference items (offline_summary items)
unfolding offline_summary
offline_summary-IsInference [] off = refl
offline_summary-IsInference (b ∷ bs) off = (
  b,
  same_backend is_offline none b,
  (record { before = []; after = bs; listed = refl; passes = refl; earlier = tt }, off, refl),
)

pub local_inference-IsInference :
    (items : List BackendListItem) → IsInference items (local_inference items)
unfolding local_inference FirstFound
local_inference-IsInference items =
    let loaded = first_item-FirstFound is_loaded items in
    let up = first_item-FirstFound (λ x. x.is_reachable) items in
    elim (Option-cases (first_item is_loaded items)) [
      | inr (b, e) ↦
          rw (e, local_inference)
            (
              b,
              same_backend is_online b.runtime_model b,
              (subst (FirstFound is_loaded items) e loaded, refl),
            )
      | inl e ↦ elim (Option-cases (first_item (λ x. x.is_reachable) items)) [
        | inr (b, f) ↦
            rw (e, f, local_inference)
              (
                b,
                same_backend is_no_model none b,
                (
                  subst (FirstFound (λ x. x.is_reachable) items) f up,
                  subst (FirstFound is_loaded items) e loaded,
                  refl,
                ),
              )
        | inl f ↦
            rw (e, f, local_inference)
              (offline_summary-IsInference items
                (subst (FirstFound (λ x. x.is_reachable) items) f up))
      ]
    ]
