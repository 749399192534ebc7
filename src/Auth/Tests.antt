-- ===== src/Auth/Tests.antt =====
-- Instances of the theorems about app/core/auth.py. The digest that stands for SHA-256 is the text
-- itself.
use syn.Common.{◌≡◌, refl, true, none, some, [], ◌∷◌, ◌++◌, arith}
use syn.Common.Text.{Text, codes, text_eq, is_space}
use syn.Errors.{ok}
use syn.ApiKeys.{is_alnum, all_chars, generate_api_key}
use syn.Auth.{KeyRow, principal_of, authenticate_request, is_expired}
use syn.Auth.Checks.{LetIn, authenticate_request-generated, authenticate_request-LetIn}

abbrev digest : Text → Text
digest s = s

abbrev public_part : Text
public_part = codes "aB3xK9pQ"

abbrev secret_suffix : Text
secret_suffix = codes "0123456789_0123456789-0123456789_0123456789"

abbrev token : Text
token = codes "syn_live_aB3xK9pQ_" ++ secret_suffix

abbrev key_row : KeyRow
key_row = record {
  id = "k";
  key_prefix = codes "syn_live_aB3xK9pQ";
  key_hash = token;
  revoked_at = none;
  expires_at = some 100;
  last_used_at = none;
  client_id = "c";
  client_name = codes "client";
  user_id = "u";
  user_name = codes "user";
  model_rows = [];
}

generated_key_authenticates :
    (authenticate_request digest true 50 (some (codes "Bearer " ++ token)) (key_row ∷ [])).1
    ≡ ok (principal_of key_row)
unfolding all_chars is_alnum text_eq is_expired generate_api_key is_space
generated_key_authenticates =
    authenticate_request-generated digest true 50 (key_row ∷ []) public_part secret_suffix key_row
      refl refl (omega arith) refl refl (refl, refl) refl

authenticate_request-LetIn_example :
    LetIn digest 50 (some (codes "Bearer " ++ token)) (key_row ∷ []) (principal_of key_row)
authenticate_request-LetIn_example =
    authenticate_request-LetIn digest true 50 (some (codes "Bearer " ++ token)) (key_row ∷ [])
      (principal_of key_row) generated_key_authenticates
