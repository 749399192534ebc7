-- ===== src/Admin/Routes.antt =====
-- The routes of app/api/admin.py over users, clients and API keys, with what app/api/admin_schemas.py
-- lets them answer. The bodies are taken as validated.
pub mod Allowed
use syn.Common.{ℕ, String, Option, none, some, List, [], ◌∷◌, map, Bool}
use syn.Common.Text.{Text}
use syn.Errors.{Result, ok, err}
use syn.ApiKeys.{GeneratedKey}
use syn.Admin.{Stamp, User, Client, ApiKey, Database, get_client_allowed_models}
use syn.Admin
use syn.Admin.Keys

pub record UserOut : Type 0 where
  pub id : String
  pub name : Text
  pub status : String
  pub created_at : ℕ
  pub updated_at : ℕ

unfoldable pub user_out : User → UserOut
user_out u = record {
  id = u.id;
  name = u.name;
  status = u.status;
  created_at = u.created_at;
  updated_at = u.updated_at;
}

-- What is answered for the value of a call of the service.
abbrev pub answered_with {ℓ κ} :
    {A : Type ℓ} {B : Type κ} → (Database → A → B) → Database × Result A → Database × Result B
answered_with out (db, ok x) = (db, ok (out db x))
answered_with out (db, err e) = (db, err e)

unfoldable pub create_user : Stamp → Text → Database → Database × Result UserOut
unfolding user_out
create_user new name db = answered_with (λ after u. user_out u) (Admin.create_user new name db)

unfoldable pub list_users : Database → List UserOut
unfolding user_out
list_users db = map user_out (Admin.list_users db)

pub record ClientOut : Type 0 where
  pub id : String
  pub user_id : String
  pub name : Text
  pub description : Option Text
  pub status : String
  pub allowed_models : List String
  pub created_at : ℕ
  pub updated_at : ℕ

unfoldable pub client_out : Database → Client → ClientOut
client_out db c = record {
  id = c.id;
  user_id = c.user_id;
  name = c.name;
  description = c.description;
  status = c.status;
  allowed_models = get_client_allowed_models c.id db;
  created_at = c.created_at;
  updated_at = c.updated_at;
}

unfoldable pub create_client :
    Stamp
    → String
    → Text
    → Option Text
    → Option (List String)
    → Database
    → Database × Result ClientOut
unfolding client_out
create_client new user_id name description models db =
    answered_with client_out (Admin.create_client new user_id name description models db)

unfoldable pub list_clients : Option String → Database → List ClientOut
unfolding client_out
list_clients user_id db = map (client_out db) (Admin.list_clients user_id db)

-- Listing metadata: neither the token nor its digest.
pub record ApiKeyOut : Type 0 where
  pub id : String
  pub name : Text
  pub key_prefix : Text
  pub client_id : String
  pub created_at : ℕ
  pub expires_at : Option ℕ
  pub revoked_at : Option ℕ
  pub last_used_at : Option ℕ

unfoldable pub key_out : ApiKey → ApiKeyOut
key_out k = record {
  id = k.id;
  name = k.name;
  key_prefix = k.key_prefix;
  client_id = k.client_id;
  created_at = k.created_at;
  expires_at = k.expires_at;
  revoked_at = k.revoked_at;
  last_used_at = k.last_used_at;
}

-- The answer to a creation, with the token; a rotation's has the identifier of the revoked key, too.
pub record ApiKeyRotateOut : Type 0 where
  pub id : String
  pub name : Text
  pub key_prefix : Text
  pub key : Text
  pub client_id : String
  pub created_at : ℕ
  pub expires_at : Option ℕ
  pub rotated_from : Option String

unfoldable pub created_out : ApiKey → Text → Option String → ApiKeyRotateOut
created_out k token rotated_from = record {
  id = k.id;
  name = k.name;
  key_prefix = k.key_prefix;
  key = token;
  client_id = k.client_id;
  created_at = k.created_at;
  expires_at = k.expires_at;
  rotated_from = rotated_from;
}

unfoldable pub create_api_key :
    Stamp → GeneratedKey → String → Text → Option ℕ → Database → Database × Result ApiKeyRotateOut
unfolding created_out
create_api_key new generated client_id name expires_at db =
    answered_with (λ after created. created_out created.0 created.1 none)
      (Keys.create_api_key new generated client_id name expires_at db)

unfoldable pub list_api_keys : Option String → Database → List ApiKeyOut
unfolding key_out
list_api_keys client_id db = map key_out (Keys.list_api_keys client_id db)

unfoldable pub revoke_api_key : ℕ → String → Database → Database × Result ApiKeyOut
unfolding key_out
revoke_api_key now id db = answered_with (λ after k. key_out k) (Keys.revoke_api_key now id db)

-- old.id if old else None
abbrev old_id : Option ApiKey → Option String
old_id none = none
old_id (some old) = some old.id

unfoldable pub rotate_api_key :
    Stamp → GeneratedKey → String → Bool → Database → Database × Result ApiKeyRotateOut
unfolding created_out
rotate_api_key new generated id revoke_old db =
    answered_with (λ after made. created_out made.0 made.1 (old_id made.2))
      (Keys.rotate_api_key new generated id revoke_old db)
