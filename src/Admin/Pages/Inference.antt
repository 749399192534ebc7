-- ===== src/Admin/Pages/Inference.antt =====
-- What the overview of app/api/admin.py says of the local inference.
pub mod First
use syn.Common.{
  String, Bool, true, false, ◌&&◌, not, Option, none, some, List, [], ◌∷◌, is_empty, if◌then◌else◌,
}
use syn.Common.Text.{Text}
use syn.Admin.Pages.Backends.{BackendListItem}

pub data InferenceStatus : Type 0 where
  is_online is_no_model is_offline : InferenceStatus

pub record LocalInference : Type 0 where
  pub model : Option Text
  pub backend : String
  pub kind : String
  pub status : InferenceStatus
  pub endpoint : Option Text

-- b.reachable and b.runtime_model
has_model : Option Text → Bool
has_model none = false
has_model (some name) = not (is_empty name)

unfoldable pub is_loaded : BackendListItem → Bool
unfolding has_model
is_loaded b = b.is_reachable && has_model b.runtime_model

-- next((b for b in items if test(b)), None)
unfoldable pub first_item : (BackendListItem → Bool) → List BackendListItem → Option BackendListItem
first_item test [] = none
first_item test (b ∷ bs) = let rest = first_item test bs in if test b then some b else rest

abbrev pub local_summary : InferenceStatus → Option Text → BackendListItem → Option LocalInference
local_summary status model b = some (record {
  model = model;
  backend = b.id;
  kind = b.kind;
  status = status;
  endpoint = b.endpoint;
})

unfoldable pub offline_summary : List BackendListItem → Option LocalInference
offline_summary [] = none
offline_summary (b ∷ bs) = local_summary is_offline none b

-- The local inference of the overview; none is the empty dict.
unfoldable pub local_inference : List BackendListItem → Option LocalInference
unfolding is_loaded first_item offline_summary
local_inference items = elim (first_item is_loaded items) [
  | some b ↦ local_summary is_online b.runtime_model b
  | none ↦ elim (first_item (λ (b : BackendListItem). b.is_reachable) items) [
    | some b ↦ local_summary is_no_model none b
    | none ↦ offline_summary items
  ]
]
