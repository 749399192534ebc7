-- ===== src/Admin/Revocation.antt =====
-- What the operations of app/services/admin.py do to a revoked key: nothing makes it valid again.
pub mod Writes
use syn.Common.{
  ℕ, String, ◌≡◌, refl, sym, ◌∙◌, ap, Bool, true, false, ◌||◌, Option, none, some, inl, inr, List,
  [], ◌∷◌, ◌++◌, map, arith, All, str_eq, str_eq_iff, is_empty, if◌then◌else◌, Bool-cases,
}
use syn.Common.Text.{Text, text_eq, strip}
use syn.Errors.{Result, ok, err}
use syn.ApiKeys.{GeneratedKey}
use syn.Auth.{is_set}
use syn.Admin.{
  Stamp, User, Client, ApiKey, Database, create_user, add_user, create_client, add_client,
  get_client, name_taken, has_duplicate, models_or_none,
}
use syn.Admin.Keys.{
  new_key, issue, create_api_key, get_api_key, revoke_row, revoke_rows, revoke_found,
  revoke_api_key, rotated, rotated_name, retire_old, rotate_found, rotate_api_key,
}

-- id is the identifier of a key
unfoldable pub known : String → List ApiKey → Bool
known id [] = false
known id (k ∷ ks) = if str_eq k.id id then true else known id ks

-- api_key.last_used_at = now, which an authentication writes
unfoldable pub mark_used : ℕ → Text → List ApiKey → List ApiKey
mark_used now key_hash keys =
    map
      (λ (k : ApiKey).
        if text_eq k.key_hash key_hash then record k { last_used_at = some now } else k)
      keys

-- The calls that write. A new row gets a primary key that no row has.
pub data Write : Database → Database → Type 0 where
  adds_user : (new : Stamp) (name : Text) (db : Database) → Write db (create_user new name db).0
  adds_client :
      (new : Stamp) (user_id : String) (name : Text) (description : Option Text)
      (models : Option (List String)) (db : Database)
      → Write db (create_client new user_id name description models db).0
  adds_key :
      (new : Stamp) (generated : GeneratedKey) (client_id : String) (name : Text)
      (expires_at : Option ℕ) (db : Database)
      → known new.id db.keys ≡ false
      → Write db (create_api_key new generated client_id name expires_at db).0
  revokes : (now : ℕ) (id : String) (db : Database) → Write db (revoke_api_key now id db).0
  rotates :
      (new : Stamp) (generated : GeneratedKey) (id : String) (revoke_old : Bool) (db : Database)
      → known new.id db.keys ≡ false
      → Write db (rotate_api_key new generated id revoke_old db).0
  uses :
      (now : ℕ) (key_hash : Text) (db : Database)
      → Write db (record db { keys = mark_used now key_hash db.keys })

pub data Reach (db : Database) : Database → Type 0 where
  here : Reach db db
  next : {mid last : Database} → Reach db mid → Write mid last → Reach db last

-- The key is there, and it is revoked.
pub record IsRevoked (id : String) (keys : List ApiKey) : Type 0 where
  pub present : known id keys ≡ true
  pub all_revoked : All (λ k. str_eq k.id id ≡ true → is_set k.revoked_at ≡ true) keys

pub known-append :
    (id : String) (ks : List ApiKey) (k : ApiKey)
    → known id (ks ++ k ∷ []) ≡ (if known id ks then true else str_eq k.id id)
unfolding known
known-append id [] k = ground arith
known-append id (j ∷ ks) k = ground (arith, known-append id ks k)

pub All-append {ℓ κ} :
    {A : Type ℓ} (P : A → Type κ) (xs : List A) (x : A) → All P xs → P x → All P (xs ++ x ∷ [])
All-append P [] x a p = (p, tt)
All-append P (y ∷ xs) x a p = (a.0, All-append P xs x a.1 p)

pub append-IsRevoked :
    (id : String) (keys : List ApiKey) (k : ApiKey)
    → known k.id keys ≡ false
    → IsRevoked id keys
    → IsRevoked id (keys ++ k ∷ [])
append-IsRevoked id keys k fresh r = record {
  present = rw (known-append id keys k, r.present) refl;
  all_revoked = All-append _ keys k r.all_revoked (λ e.
      absurd (ground (arith, r.present, fresh, ap (λ i. known i keys) ((str_eq_iff k.id id).0 e))));
}

known-map :
    (id : String) (f : ApiKey → ApiKey)
    → ((k : ApiKey) → (f k).id ≡ k.id)
    → (keys : List ApiKey) → known id (map f keys) ≡ known id keys
unfolding known
known-map id f same [] = refl
known-map id f same (k ∷ ks) = rw (same k, known-map id f same ks) refl

map-All :
    (id : String) (f : ApiKey → ApiKey)
    → ((k : ApiKey) → (f k).id ≡ k.id)
    → ((k : ApiKey) → is_set k.revoked_at ≡ true → is_set (f k).revoked_at ≡ true)
    → (keys : List ApiKey) → All (λ k. str_eq k.id id ≡ true → is_set k.revoked_at ≡ true) keys
    → All (λ k. str_eq k.id id ≡ true → is_set k.revoked_at ≡ true) (map f keys)
map-All id f same keeps [] a = tt
map-All id f same keeps (k ∷ ks) a =
    (λ e. keeps k (a.0 (ap (λ i. str_eq i id) (sym (same k)) ∙ e)), map-All id f same keeps ks a.1)

map-IsRevoked :
    (id : String) (f : ApiKey → ApiKey) (keys : List ApiKey)
    → ((k : ApiKey) → (f k).id ≡ k.id)
    → ((k : ApiKey) → is_set k.revoked_at ≡ true → is_set (f k).revoked_at ≡ true)
    → IsRevoked id keys
    → IsRevoked id (map f keys)
map-IsRevoked id f keys same keeps r = record {
  present = known-map id f same keys ∙ r.present;
  all_revoked = map-All id f same keeps keys r.all_revoked;
}

pub revoke_if : ℕ → String → ApiKey → ApiKey
unfolding revoke_row
revoke_if now id k = if str_eq k.id id then revoke_row now k else k

pub revoke_if-id : (now : ℕ) (id : String) (k : ApiKey) → (revoke_if now id k).id ≡ k.id
unfolding revoke_if revoke_row
revoke_if-id now id k = ground arith

revoke_if-keeps :
    (now : ℕ) (id : String) (k : ApiKey)
    → is_set k.revoked_at ≡ true
    → is_set (revoke_if now id k).revoked_at ≡ true
unfolding revoke_if revoke_row
revoke_if-keeps now id k h = ground (arith, h)

revoke_if-revokes :
    (now : ℕ) (id : String) (k : ApiKey)
    → str_eq k.id id ≡ true
    → is_set (revoke_if now id k).revoked_at ≡ true
unfolding revoke_if revoke_row
revoke_if-revokes now id k h = elim (Bool-cases (is_set k.revoked_at)) [
  | inl e ↦ rw (h, e) e
  | inr e ↦ rw (h, e) refl
]

pub revoke_rows-IsRevoked :
    (now : ℕ) (id other_id : String) (keys : List ApiKey)
    → IsRevoked id keys
    → IsRevoked id (revoke_rows now other_id keys)
unfolding revoke_rows revoke_if
revoke_rows-IsRevoked now id other_id keys r =
    map-IsRevoked id (revoke_if now other_id) keys (revoke_if-id now other_id)
      (revoke_if-keeps now other_id) r

pub revoke_rows-All :
    (now : ℕ) (id : String) (keys : List ApiKey)
    → All (λ k. str_eq k.id id ≡ true → is_set k.revoked_at ≡ true) (revoke_rows now id keys)
unfolding revoke_rows revoke_if
revoke_rows-All now id [] = tt
revoke_rows-All now id (k ∷ ks) = (
  λ e. revoke_if-revokes now id k (ap (λ i. str_eq i id) (sym (revoke_if-id now id k)) ∙ e),
  revoke_rows-All now id ks,
)

mark_if : ℕ → Text → ApiKey → ApiKey
mark_if now h k = if text_eq k.key_hash h then record k { last_used_at = some now } else k

pub mark_used-IsRevoked :
    (now : ℕ) (h : Text) (id : String) (keys : List ApiKey)
    → IsRevoked id keys
    → IsRevoked id (mark_used now h keys)
unfolding mark_used mark_if
mark_used-IsRevoked now h id keys r =
    map-IsRevoked id (mark_if now h) keys (λ k. ground arith) (λ k e. ground (arith, e)) r

pub known-revoke_rows :
    (now : ℕ) (id other_id : String) (keys : List ApiKey)
    → known id (revoke_rows now other_id keys) ≡ known id keys
unfolding revoke_rows revoke_if
known-revoke_rows now id other_id keys =
    known-map id (revoke_if now other_id) (revoke_if-id now other_id) keys
