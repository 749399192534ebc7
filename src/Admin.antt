-- ===== src/Admin.antt =====
-- app/services/admin.py: the management of users, clients and API keys. The database is the lists of
-- its rows, with the constraints that the schema in alembic/versions declares. What the database
-- fills into a new row is given.
pub mod Keys
pub mod Revocation
pub mod Refusal
pub mod Creation
pub mod Rotation
pub mod Routes
pub mod Policies
pub mod Runtime
pub mod Metrics
pub mod Overview
pub mod Pages
mod Tests
use syn.Common.{
  ℕ, String, Bool, true, false, not, ◌||◌, Option, none, some, List, [], ◌∷◌, ◌++◌, map, leb,
  str_eq, is_empty, select, if◌then◌else◌,
}
use syn.Common.Text.{Text, codes, text_eq, strip}
use syn.Common.Dict.{elem}
use syn.Errors.{
  validation_error, syn_error, not_found_error, raised, make, Exn, gateway, other, Result, ok, err,
}
use syn.Policy.{Limits}
use syn.ApiKeys.{GeneratedKey, generate_api_key}
use syn.Auth.{KeyRow, is_set}

-- What the database fills in: a fresh primary key, the default status, and the time.
pub record Stamp : Type 0 where
  pub id : String
  pub status : String
  pub at : ℕ

pub record User : Type 0 where
  pub id : String
  pub name : Text
  pub status : String
  pub created_at : ℕ
  pub updated_at : ℕ

pub record Client : Type 0 where
  pub id : String
  pub user_id : String
  pub name : Text
  pub description : Option Text
  pub status : String
  pub limits : Limits
  pub created_at : ℕ
  pub updated_at : ℕ

pub record ApiKey : Type 0 where
  pub id : String
  pub client_id : String
  pub name : Text
  pub key_prefix : Text
  pub key_hash : Text
  pub limits : Limits
  pub created_at : ℕ
  pub expires_at : Option ℕ
  pub revoked_at : Option ℕ
  pub last_used_at : Option ℕ

-- The tables; a row of the third allows a client a model.
pub record Database : Type 0 where
  pub users : List User
  pub clients : List Client
  pub allowed : List (String × String)
  pub keys : List ApiKey

-- The first row that passes a test. The queries test primary keys and unique columns, so that
-- `one_or_none` finds at most one row.
unfoldable pub find {ℓ} : {A : Type ℓ} → (A → Bool) → List A → Option A
find p [] = none
find p (x ∷ xs) = if p x then some x else find p xs

abbrev pub no_limits : Limits
no_limits = record { requests_per_minute = none; requests_per_day = none; tokens_per_day = none }

-- What `create_user` does with a name, when the query for it has been answered.
unfoldable pub add_user : Stamp → Text → Database → Option User → Database × Result User
add_user new name db (some taken) =
    (db, err (gateway (make syn_error (some "user_exists") (some 409) none)))
add_user new name db none =
    let user : User = record {
      id = new.id;
      name = name;
      status = new.status;
      created_at = new.at;
      updated_at = new.at;
    } in
    (record db { users = db.users ++ user ∷ [] }, ok user)

unfoldable pub create_user : Stamp → Text → Database → Database × Result User
unfolding add_user
create_user new raw_name db =
    let name = strip raw_name in
    if is_empty name
    then (db, err (gateway (raised validation_error "validation_error")))
    else add_user new name db (find (λ (u : User). text_eq u.name name) db.users)

-- ORDER BY created_at, where rows of one time keep their order
unfoldable pub insert_oldest {ℓ} : {A : Type ℓ} → (A → ℕ) → A → List A → List A
insert_oldest at x [] = x ∷ []
insert_oldest at x (y ∷ ys) = if leb (at x) (at y) then x ∷ y ∷ ys else y ∷ insert_oldest at x ys

unfoldable pub oldest_first {ℓ} : {A : Type ℓ} → (A → ℕ) → List A → List A
unfolding insert_oldest
oldest_first at [] = []
oldest_first at (x ∷ xs) = insert_oldest at x (oldest_first at xs)

unfoldable pub list_users : Database → List User
list_users db = oldest_first (λ u. u.created_at) db.users

abbrev pub found_or {ℓ} : {A : Type ℓ} → String → Option A → Result A
found_or code none = err (gateway (raised not_found_error code))
found_or code (some x) = ok x

unfoldable pub get_user : String → Database → Result User
get_user user_id db = found_or "user_not_found" (find (λ (u : User). str_eq u.id user_id) db.users)

-- allowed or [], whose rows are added
unfoldable pub models_or_none : Option (List String) → List String
models_or_none none = []
models_or_none (some models) = models

-- _set_allowed_models
unfoldable pub set_allowed_models :
    String → Option (List String) → List (String × String) → List (String × String)
unfolding models_or_none
set_allowed_models client_id models rows =
    select (λ row. not (str_eq row.0 client_id)) rows
    ++ map (λ m. (client_id, m)) (models_or_none models)

unfoldable pub get_client_allowed_models : String → Database → List String
get_client_allowed_models client_id db =
    map (λ row. row.1) (select (λ row. str_eq row.0 client_id) db.allowed)

-- Two equal texts, which the schema's unique constraint on the allowed models refuses.
unfoldable pub has_duplicate : List String → Bool
has_duplicate [] = false
has_duplicate (x ∷ xs) = if elem x xs then true else has_duplicate xs

-- The name is taken by another client of the user: the schema's unique constraint.
unfoldable pub name_taken : String → Text → List Client → Bool
name_taken user_id name [] = false
name_taken user_id name (c ∷ cs) =
    let rest = name_taken user_id name cs in
    if str_eq c.user_id user_id then if text_eq c.name name then true else rest else rest

-- What `create_client` does once it has the user. The commit raises an error of the database's
-- library when a constraint is broken, and changes nothing.
unfoldable pub add_client :
    Stamp
    → Text
    → Option Text
    → Option (List String)
    → Database
    → Result User
    → Database × Result Client
unfolding set_allowed_models has_duplicate name_taken
add_client new name description models db (err e) = (db, err e)
add_client new name description models db (ok user) =
    let client : Client = record {
      id = new.id;
      user_id = user.id;
      name = name;
      description = description;
      status = new.status;
      limits = no_limits;
      created_at = new.at;
      updated_at = new.at;
    } in
    if name_taken user.id name db.clients || has_duplicate (models_or_none models)
    then (db, err other)
    else (
      record db {
        clients = db.clients ++ client ∷ [];
        allowed = set_allowed_models new.id models db.allowed;
      },
      ok client,
    )

unfoldable pub create_client :
    Stamp → String → Text → Option Text → Option (List String) → Database → Database × Result Client
unfolding get_user add_client
create_client new user_id raw_name description models db =
    let name = strip raw_name in
    if is_empty name
    then (db, err (gateway (raised validation_error "validation_error")))
    else add_client new name description models db (get_user user_id db)

unfoldable pub list_clients : Option String → Database → List Client
list_clients none db = oldest_first (λ c. c.created_at) db.clients
list_clients (some user_id) db =
    oldest_first (λ c. c.created_at) (select (λ (c : Client). str_eq c.user_id user_id) db.clients)

unfoldable pub get_client : String → Database → Result Client
get_client client_id db =
    found_or "client_not_found" (find (λ (c : Client). str_eq c.id client_id) db.clients)
