-- ===== src/Admin/Revocation/Writes.antt =====
-- Each call of app/services/admin.py that writes leaves a revoked key revoked.
use syn.Common.{
  ℕ, String, ◌≡◌, refl, Bool, true, false, ◌||◌, Option, none, some, inl, inr, List, is_empty,
  Bool-cases,
}
use syn.Common.Text.{Text, strip}
use syn.Errors.{Result, ok, err}
use syn.ApiKeys.{GeneratedKey}
use syn.Admin.{
  Stamp, User, Client, ApiKey, Database, create_user, add_user, create_client, add_client,
  get_client, name_taken, has_duplicate, models_or_none,
}
use syn.Admin.Keys.{
  new_key, issue, create_api_key, get_api_key, revoke_found, revoke_api_key, rotated, rotated_name,
  retire_old, rotate_found, rotate_api_key,
}
use syn.Admin.Revocation.{
  known, Write, adds_user, adds_client, adds_key, revokes, rotates, uses, Reach, here, next,
  IsRevoked, append-IsRevoked, revoke_rows-IsRevoked, mark_used-IsRevoked,
}

add_user-keys :
    (new : Stamp) (name : Text) (db : Database) (taken : Option User)
    → (add_user new name db taken).0.keys ≡ db.keys
unfolding add_user
add_user-keys new name db none = refl
add_user-keys new name db (some u) = refl

create_user-keys :
    (new : Stamp) (name : Text) (db : Database) → (create_user new name db).0.keys ≡ db.keys
unfolding create_user
create_user-keys new name db = elim (Bool-cases (is_empty (strip name))) [
  | inl e ↦ rw e refl
  | inr e ↦ rw e (add_user-keys new (strip name) db _)
]

add_client-keys :
    (new : Stamp) (name : Text) (description : Option Text) (models : Option (List String))
    (db : Database) (user : Result User)
    → (add_client new name description models db user).0.keys ≡ db.keys
unfolding add_client
add_client-keys new name description models db (err e) = refl
add_client-keys new name description models db (ok user) =
    elim (Bool-cases
      (name_taken user.id name db.clients || has_duplicate (models_or_none models))) [
        | inl e ↦ rw e refl
        | inr e ↦ rw e refl
      ]

create_client-keys :
    (new : Stamp) (user_id : String) (name : Text) (description : Option Text)
    (models : Option (List String)) (db : Database)
    → (create_client new user_id name description models db).0.keys ≡ db.keys
unfolding create_client
create_client-keys new user_id name description models db =
    elim (Bool-cases (is_empty (strip name))) [
      | inl e ↦ rw e refl
      | inr e ↦ rw e (add_client-keys new (strip name) description models db _)
    ]

module _ (id : String) (new : Stamp) (generated : GeneratedKey) (db : Database)
    (fresh : known new.id db.keys ≡ false) (r : IsRevoked id db.keys) where
  issue-IsRevoked :
      (name : Text) (expires_at : Option ℕ) (client : Result Client)
      → IsRevoked id (issue new generated name expires_at db client).0.keys
  unfolding issue new_key
  issue-IsRevoked name expires_at (err e) = r
  issue-IsRevoked name expires_at (ok client) = append-IsRevoked id db.keys _ fresh r

  create_api_key-IsRevoked :
      (client_id : String) (name : Text) (expires_at : Option ℕ)
      → IsRevoked id (create_api_key new generated client_id name expires_at db).0.keys
  unfolding create_api_key
  create_api_key-IsRevoked client_id name expires_at = elim (Bool-cases (is_empty (strip name))) [
    | inl e ↦ rw e r
    | inr e ↦ rw e (issue-IsRevoked (strip name) expires_at (get_client client_id db))
  ]

revoke_found-IsRevoked :
    (now : ℕ) (id other_id : String) (db : Database) (found : Result ApiKey)
    → IsRevoked id db.keys
    → IsRevoked id (revoke_found now other_id db found).0.keys
unfolding revoke_found
revoke_found-IsRevoked now id other_id db (err e) r = r
revoke_found-IsRevoked now id other_id db (ok k) r = revoke_rows-IsRevoked now id other_id db.keys r

rotated-database :
    (created : ApiKey × Text) (revoked : Database × Result ApiKey)
    → (rotated created revoked).0 ≡ revoked.0
rotated-database created (db, ok old) = refl
rotated-database created (db, err e) = refl

retire_old-IsRevoked :
    (id : String) (revoke_old : Bool) (now : ℕ) (old_id : String)
    (created : Database × Result (ApiKey × Text))
    → IsRevoked id created.0.keys
    → IsRevoked id (retire_old revoke_old now old_id created).0.keys
unfolding retire_old revoke_api_key
retire_old-IsRevoked id revoke_old now old_id (db, err e) r = r
retire_old-IsRevoked id true now old_id (db, ok created) r =
    rw (rotated-database created (revoke_api_key now old_id db))
      (revoke_found-IsRevoked now id old_id db (get_api_key old_id db) r)
retire_old-IsRevoked id false now old_id (db, ok created) r = r

rotate_found-IsRevoked :
    (id : String) (new : Stamp) (generated : GeneratedKey) (revoke_old : Bool) (db : Database)
    (found : Result ApiKey)
    → known new.id db.keys ≡ false
    → IsRevoked id db.keys
    → IsRevoked id (rotate_found new generated revoke_old db found).0.keys
unfolding rotate_found
rotate_found-IsRevoked id new generated revoke_old db (err e) fresh r = r
rotate_found-IsRevoked id new generated revoke_old db (ok old) fresh r =
    retire_old-IsRevoked id revoke_old new.at old.id _ (
      create_api_key-IsRevoked id new generated db fresh r old.client_id (rotated_name old.name)
        none)

Write-IsRevoked :
    (id : String) {s t : Database} → Write s t → IsRevoked id s.keys → IsRevoked id t.keys
unfolding revoke_api_key rotate_api_key
Write-IsRevoked id (adds_user new name db) r = rw (create_user-keys new name db) r
Write-IsRevoked id (adds_client new user_id name description models db) r =
    rw (create_client-keys new user_id name description models db) r
Write-IsRevoked id (adds_key new generated client_id name expires_at db fresh) r =
    create_api_key-IsRevoked id new generated db fresh r client_id name expires_at
Write-IsRevoked id (revokes now other_id db) r =
    revoke_found-IsRevoked now id other_id db (get_api_key other_id db) r
Write-IsRevoked id (rotates new generated other_id revoke_old db fresh) r =
    rotate_found-IsRevoked id new generated revoke_old db (get_api_key other_id db) fresh r
Write-IsRevoked id (uses now h db) r = mark_used-IsRevoked now h id db.keys r

pub Reach-IsRevoked :
    (id : String) {s t : Database} → Reach s t → IsRevoked id s.keys → IsRevoked id t.keys
Reach-IsRevoked id here r = r
Reach-IsRevoked id (next h step) r = Write-IsRevoked id step (Reach-IsRevoked id h r)
