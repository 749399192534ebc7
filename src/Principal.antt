-- ===== src/Principal.antt =====
-- app/core/principal.py: who makes a request, and which models that client may use.
use syn.Common.{String, Bool, true, Option, none, some, List}
use syn.Common.Text.{Text}
use syn.Common.Dict.{elem}

pub record AuthenticatedPrincipal : Type 0 where
  pub user_id : String
  pub user_name : Text
  pub client_id : String
  pub client_name : Text
  pub api_key_id : String
  pub api_key_prefix : Text
  -- `none` when the client is not restricted
  pub allowed_models : Option (List String)

allowed : Option (List String) → String → Bool
allowed none model_id = true
allowed (some ids) model_id = elem model_id ids

unfoldable pub can_use_model : AuthenticatedPrincipal → String → Bool
unfolding allowed
can_use_model p model_id = allowed p.allowed_models model_id
