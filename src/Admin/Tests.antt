-- ===== src/Admin/Tests.antt =====
-- Runs of app/services/admin.py, and instances of its theorems.
use syn.Common.{◌≡◌, refl, true, none, some, [], ◌∷◌, arith}
use syn.Common.Text.{Text, codes, text_eq, strip, rstrip, drop_while, is_space}
use syn.Common.Dict.{elem}
use syn.Errors.{ok, err, gateway, other, make, syn_error}
use syn.ApiKeys.{generate_api_key, all_chars, is_alnum}
use syn.Auth.{is_expired, authenticate_request}
use syn.Admin.{
  Stamp, User, Client, ApiKey, Database, no_limits, create_user, create_client, add_user,
  add_client, find, get_user, get_client, name_taken, has_duplicate, models_or_none,
}
use syn.Admin.Keys.{
  revoke_api_key, get_api_key, new_key, create_api_key, rotated_name, revoke_rows, revoke_row,
  rotate_api_key, auth_table,
}
use syn.Admin.Revocation.{known, here, next, adds_user}
use syn.Admin.Refusal.{revoke_api_key-refused}
use syn.Admin.Creation.{
  token, bearer, principal_for, last_key-authenticates, AreKeyParts, Created,
  create_api_key-authenticates,
}
use syn.Admin.Rotation.{Rotated, rotate_api_key-Rotated}

-- A digest that adds a character.
abbrev digest : Text → Text
digest s = b'#' ∷ s

abbrev ann : User
ann = record { id = "u"; name = codes "Ann"; status = "active"; created_at = 1; updated_at = 1 }

abbrev app : Client
app = record {
  id = "c";
  user_id = "u";
  name = codes "app";
  description = none;
  status = "active";
  limits = no_limits;
  created_at = 2;
  updated_at = 2;
}

abbrev old_key : ApiKey
old_key = record {
  id = "k";
  client_id = "c";
  name = codes "first";
  key_prefix = codes "syn_live_aaaaaaaa";
  key_hash = codes "#old";
  limits = no_limits;
  created_at = 3;
  expires_at = some 100;
  revoked_at = none;
  last_used_at = none;
}

abbrev database : Database
database = record {
  users = ann ∷ [];
  clients = app ∷ [];
  allowed = ("c", "llama") ∷ [];
  keys = old_key ∷ [];
}

abbrev stamp : Stamp
stamp = record { id = "n"; status = "active"; at = 50 }

abbrev public_part : Text
public_part = codes "aB3xK9pQ"

abbrev secret_part : Text
secret_part = codes "abcdefghijklmnopqrstuvwxyz0123456789"

parts : AreKeyParts public_part secret_part
unfolding all_chars is_alnum is_space
parts = record {
  public_length = refl;
  public_alnum = refl;
  secret_length = omega arith;
  spaceless = refl;
}

-- A second user of the name is refused with status 409.
second_ann :
    (create_user stamp (codes " Ann ") database).1
    ≡ err (gateway (make syn_error (some "user_exists") (some 409) none))
unfolding create_user add_user find text_eq strip rstrip drop_while is_space
second_ann = refl

-- A second client of the name ends in an error of the database.
second_app : (create_client stamp "u" (codes "app") none none database).1 ≡ err other
unfolding create_client add_client get_user find name_taken text_eq strip rstrip drop_while is_space
second_app = refl

-- The model that is listed twice ends in an error of the database.
model_twice :
    (create_client stamp "u" (codes "web") none (some ("m" ∷ "m" ∷ [])) database).1 ≡ err other
unfolding create_client add_client get_user find name_taken text_eq has_duplicate elem
    models_or_none strip rstrip drop_while is_space
model_twice = refl

create_api_key-authenticates_example :
    Created digest true 60 public_part secret_part parts database
      (new_key stamp
        (generate_api_key digest public_part secret_part)
        "c"
        (strip (codes "second"))
        (some 100))
      app
      ann
      (create_api_key stamp
        (generate_api_key digest public_part secret_part)
        "c"
        (codes "second")
        (some 100)
        database)
unfolding get_client get_user find text_eq is_expired strip rstrip drop_while is_space
create_api_key-authenticates_example =
    create_api_key-authenticates digest true 60 public_part secret_part parts database stamp "c"
      (codes "second") (some 100) app ann refl refl refl (refl, tt) refl

rotate_api_key-Rotated_example :
    Rotated digest true 200 public_part secret_part parts database old_key
      (new_key stamp
        (generate_api_key digest public_part secret_part)
        "c"
        (strip (rotated_name (codes "first")))
        none)
      app
      ann
      (rotate_api_key stamp (generate_api_key digest public_part secret_part) "k" true database)
unfolding get_api_key get_client get_user find known text_eq
rotate_api_key-Rotated_example =
    rotate_api_key-Rotated digest true 200 public_part secret_part parts database stamp "k" old_key
      app ann refl refl refl (refl, tt) refl

abbrev second : ApiKey
second = record {
  id = "n";
  client_id = "c";
  name = codes "second";
  key_prefix = codes "syn_live_aB3xK9pQ";
  key_hash = digest (token digest true 60 public_part secret_part parts);
  limits = no_limits;
  created_at = 4;
  expires_at = none;
  revoked_at = none;
  last_used_at = none;
}

abbrev two_keys : Database
two_keys = record database { keys = old_key ∷ second ∷ [] }

abbrev bob : Stamp
bob = record { id = "b"; status = "active"; at = 80 }

-- The first key is revoked, and then a user is created.
abbrev later : Database
later = (create_user bob (codes "Bob") (revoke_api_key 70 "k" two_keys).0).0

-- The second key is let in then.
second_authenticates :
    (authenticate_request digest true 90
      (bearer digest true 60 public_part secret_part parts)
      (auth_table later)).1
    ≡ ok (principal_for later second app ann)
unfolding create_user add_user revoke_api_key revoke_rows get_api_key get_client get_user find
    text_eq is_expired strip rstrip drop_while is_space
second_authenticates =
    last_key-authenticates digest true 90 public_part secret_part parts later
      (revoke_rows 70 "k" (old_key ∷ [])) second app ann (refl, tt) refl refl refl refl refl refl

revoke_api_key-refused_example : ¬ ((principal_for later second app ann).api_key_id ≡ "k")
unfolding revoke_api_key get_api_key find
revoke_api_key-refused_example =
    revoke_api_key-refused two_keys later 70 "k" (revoke_row 70 old_key) refl
      (next here (adds_user bob (codes "Bob") (revoke_api_key 70 "k" two_keys).0)) digest true 90
      (bearer digest true 60 public_part secret_part parts) (principal_for later second app ann)
      second_authenticates
