-- ===== src/Backend.antt =====
-- app/backends/base.py: the interface of an inference backend. A backend's calls leave the process,
-- so a backend is the answers that it gives at the time; the texts of a health result that are only
-- displayed (reason, timings) are left out.
use syn.Common.{ℕ, String, Bool, true, false, Option, List, [], ◌∷◌, if◌then◌else◌}
use syn.Common.Text.{Text}
use syn.Common.Json.{Json}
use syn.Errors.{Result}

pub data BackendCapability : Type 0 where
  health_probe models_list chat_completions streaming cancellation : BackendCapability

pub data BackendHealthState : Type 0 where
  unknown reachable unreachable timeout invalid : BackendHealthState

pub record BackendHealthResult : Type 0 where
  pub state : BackendHealthState
  pub is_reachable : Bool
  pub configured : Bool
  pub server_version : Json
  pub model : Option Text

pub record BackendModelInfo : Type 0 where
  pub id : String
  pub object_name : String
  pub owned_by : String
  pub created : Option ℕ

pub record InferenceBackend : Type 0 where
  pub name : String
  pub base_url : Text
  pub capabilities : List BackendCapability
  pub health : Result BackendHealthResult
  pub models : Result (List BackendModelInfo)

same_capability : BackendCapability → BackendCapability → Bool
same_capability health_probe health_probe = true
same_capability models_list models_list = true
same_capability chat_completions chat_completions = true
same_capability streaming streaming = true
same_capability cancellation cancellation = true
same_capability _ _ = false

-- capability in backend.capabilities()
unfoldable pub has_capability : BackendCapability → List BackendCapability → Bool
unfolding same_capability
has_capability c [] = false
has_capability c (x ∷ xs) = if same_capability c x then true else has_capability c xs
