-- ===== src/Admin/Keys.antt =====
-- The API keys of app/services/admin.py.
use syn.Common.{
  ℕ, String, Bool, Option, none, some, List, [], ◌∷◌, ◌++◌, map, str_eq, is_empty, select,
  if◌then◌else◌,
}
use syn.Common.Text.{Text, codes, strip}
use syn.Errors.{validation_error, raised, gateway, Result, ok, err}
use syn.ApiKeys.{GeneratedKey}
use syn.Auth.{KeyRow, is_set}
use syn.Admin.{
  Stamp, User, Client, ApiKey, Database, find, found_or, no_limits, oldest_first, get_client,
  get_user, get_client_allowed_models,
}

-- The row of a key that has been generated; a new row has no limits, and is neither revoked nor
-- used.
unfoldable pub new_key : Stamp → GeneratedKey → String → Text → Option ℕ → ApiKey
new_key new generated client_id name expires_at = record {
  id = new.id;
  client_id = client_id;
  name = name;
  key_prefix = generated.key_prefix;
  key_hash = generated.key_hash;
  limits = no_limits;
  created_at = new.at;
  expires_at = expires_at;
  revoked_at = none;
  last_used_at = none;
}

-- What `create_api_key` does once it has the client.
unfoldable pub issue :
    Stamp
    → GeneratedKey
    → Text
    → Option ℕ
    → Database
    → Result Client
    → Database × Result (ApiKey × Text)
unfolding new_key
issue new generated name expires_at db (err e) = (db, err e)
issue new generated name expires_at db (ok client) =
    let api_key = new_key new generated client.id name expires_at in
    (record db { keys = db.keys ++ api_key ∷ [] }, ok (api_key, generated.full_token))

unfoldable pub create_api_key :
    Stamp → GeneratedKey → String → Text → Option ℕ → Database → Database × Result (ApiKey × Text)
unfolding issue get_client
create_api_key new generated client_id raw_name expires_at db =
    let name = strip raw_name in
    if is_empty name
    then (db, err (gateway (raised validation_error "validation_error")))
    else issue new generated name expires_at db (get_client client_id db)

unfoldable pub list_api_keys : Option String → Database → List ApiKey
list_api_keys none db = oldest_first (λ k. k.created_at) db.keys
list_api_keys (some client_id) db =
    oldest_first (λ k. k.created_at) (select (λ (k : ApiKey). str_eq k.client_id client_id) db.keys)

unfoldable pub get_api_key : String → Database → Result ApiKey
get_api_key id db = found_or "api_key_not_found" (find (λ (k : ApiKey). str_eq k.id id) db.keys)

-- if revoked_at is None: revoked_at = now
unfoldable pub revoke_row : ℕ → ApiKey → ApiKey
revoke_row now k = if is_set k.revoked_at then k else record k { revoked_at = some now }

unfoldable pub revoke_rows : ℕ → String → List ApiKey → List ApiKey
unfolding revoke_row
revoke_rows now id keys = map (λ (k : ApiKey). if str_eq k.id id then revoke_row now k else k) keys

unfoldable pub revoke_found : ℕ → String → Database → Result ApiKey → Database × Result ApiKey
unfolding revoke_rows
revoke_found now id db (err e) = (db, err e)
revoke_found now id db (ok api_key) =
    (record db { keys = revoke_rows now id db.keys }, ok (revoke_row now api_key))

unfoldable pub revoke_api_key : ℕ → String → Database → Database × Result ApiKey
unfolding get_api_key revoke_found
revoke_api_key now id db = revoke_found now id db (get_api_key id db)

-- f"{old.name} (rotated)"
unfoldable pub rotated_name : Text → Text
rotated_name name = name ++ codes " (rotated)"

-- What `rotate_api_key` answers, once the new key is created: the rows and the token.
abbrev pub rotated :
    ApiKey × Text → Database × Result ApiKey → Database × Result (ApiKey × Text × Option ApiKey)
rotated (new_key, token) (db, ok old) = (db, ok (new_key, token, some old))
rotated (new_key, token) (db, err e) = (db, err e)

unfoldable pub retire_old :
    Bool
    → ℕ
    → String
    → Database × Result (ApiKey × Text)
    → Database × Result (ApiKey × Text × Option ApiKey)
unfolding revoke_api_key
retire_old revoke_old now id (db, err e) = (db, err e)
retire_old revoke_old now id (db, ok created) =
    if revoke_old
    then rotated created (revoke_api_key now id db)
    else (db, ok (created.0, created.1, none))

-- What `rotate_api_key` does once it has the old key: the new one has no time of expiry.
unfoldable pub rotate_found :
    Stamp
    → GeneratedKey
    → Bool
    → Database
    → Result ApiKey
    → Database × Result (ApiKey × Text × Option ApiKey)
unfolding create_api_key retire_old rotated_name
rotate_found new generated revoke_old db (err e) = (db, err e)
rotate_found new generated revoke_old db (ok old) =
    retire_old revoke_old new.at old.id
      (create_api_key new generated old.client_id (rotated_name old.name) none db)

unfoldable pub rotate_api_key :
    Stamp
    → GeneratedKey
    → String
    → Bool
    → Database
    → Database × Result (ApiKey × Text × Option ApiKey)
unfolding get_api_key rotate_found
rotate_api_key new generated id revoke_old db =
    rotate_found new generated revoke_old db (get_api_key id db)

-- The row that the authentication reads of a key: with its client and that client's user, which the
-- foreign keys of the schema lead to.
unfoldable pub row_for : Database → ApiKey → Client → User → KeyRow
unfolding get_client_allowed_models
row_for db k client user = record {
  id = k.id;
  key_prefix = k.key_prefix;
  key_hash = k.key_hash;
  revoked_at = k.revoked_at;
  expires_at = k.expires_at;
  last_used_at = k.last_used_at;
  client_id = client.id;
  client_name = client.name;
  user_id = user.id;
  user_name = user.name;
  model_rows = get_client_allowed_models client.id db;
}

unfoldable pub row_with : Database → ApiKey → Client → Result User → List KeyRow
unfolding row_for
row_with db k client (err e) = []
row_with db k client (ok user) = row_for db k client user ∷ []

unfoldable pub rows_with : Database → ApiKey → Result Client → List KeyRow
unfolding row_with get_user
rows_with db k (err e) = []
rows_with db k (ok client) = row_with db k client (get_user client.user_id db)

unfoldable pub key_rows : Database → List ApiKey → List KeyRow
unfolding rows_with get_client
key_rows db [] = []
key_rows db (k ∷ ks) = rows_with db k (get_client k.client_id db) ++ key_rows db ks

unfoldable pub auth_table : Database → List KeyRow
unfolding key_rows
auth_table db = key_rows db db.keys
