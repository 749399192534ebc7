-- ===== src/Admin/Refusal.antt =====
-- A key that app/services/admin.py has revoked is refused by app/core/auth.py from then on.
use syn.Common.{
  ℕ, String, ◌≡◌, refl, ◌∙◌, Bool, true, false, Option, none, inl, inr, List, [], ◌∷◌, ◌++◌, arith,
  All, str_eq, str_eq_iff, select, Bool-cases,
}
use syn.Common.Text.{Text, text_eq}
use syn.Errors.{Result, ok, err}
use syn.Principal.{AuthenticatedPrincipal}
use syn.Auth.{KeyRow, is_set, authenticate_request, principal_of}
use syn.Auth.Checks.{authenticate_request-LetIn}
use syn.Admin.{User, Client, ApiKey, Database, find, found_or, get_user, get_client}
use syn.Admin.Keys.{
  get_api_key, revoke_found, revoke_api_key, row_for, row_with, rows_with, key_rows, auth_table,
}
use syn.Admin.Revocation.{known, Reach, IsRevoked, revoke_rows-All, known-revoke_rows}
use syn.Admin.Revocation.Writes.{Reach-IsRevoked}

-- A row of the key is marked as revoked.
abbrev IsMarked : String → KeyRow → Type 0
IsMarked id r = str_eq r.id id ≡ true → is_set r.revoked_at ≡ true

row_with-IsMarked :
    (id : String) (db : Database) (k : ApiKey) (client : Client) (user : Result User)
    → (str_eq k.id id ≡ true → is_set k.revoked_at ≡ true)
    → All (IsMarked id) (row_with db k client user)
unfolding row_with row_for
row_with-IsMarked id db k client (err e) h = tt
row_with-IsMarked id db k client (ok user) h = (h, tt)

rows_with-IsMarked :
    (id : String) (db : Database) (k : ApiKey) (client : Result Client)
    → (str_eq k.id id ≡ true → is_set k.revoked_at ≡ true)
    → All (IsMarked id) (rows_with db k client)
unfolding rows_with
rows_with-IsMarked id db k (err e) h = tt
rows_with-IsMarked id db k (ok client) h =
    row_with-IsMarked id db k client (get_user client.user_id db) h

pub All-++ {ℓ κ} :
    {A : Type ℓ} (P : A → Type κ) (xs ys : List A) → All P xs → All P ys → All P (xs ++ ys)
All-++ P [] ys a b = b
All-++ P (x ∷ xs) ys a b = (a.0, All-++ P xs ys a.1 b)

key_rows-IsMarked :
    (id : String) (db : Database) (keys : List ApiKey)
    → All (λ k. str_eq k.id id ≡ true → is_set k.revoked_at ≡ true) keys
    → All (IsMarked id) (key_rows db keys)
unfolding key_rows
key_rows-IsMarked id db [] a = tt
key_rows-IsMarked id db (k ∷ ks) a =
    All-++ (IsMarked id) (rows_with db k (get_client k.client_id db)) (key_rows db ks)
      (rows_with-IsMarked id db k (get_client k.client_id db) a.0) (key_rows-IsMarked id db ks a.1)

select-All :
    (P : KeyRow → Type 0) (q : KeyRow → Bool) (rows : List KeyRow)
    → All P rows
    → All P (select q rows)
select-All P q [] a = tt
select-All P q (r ∷ rows) a = elim (Bool-cases (q r)) [
  | inl e ↦ rw e (a.0, select-All P q rows a.1)
  | inr e ↦ rw e (select-All P q rows a.1)
]

pub IsRevoked-refused :
    (id : String) (db : Database) (hash : Text → Text) (commits : Bool) (now : ℕ)
    (header : Option Text) (p : AuthenticatedPrincipal)
    → IsRevoked id db.keys
    → (authenticate_request hash commits now header (auth_table db)).1 ≡ ok p
    → ¬ (p.api_key_id ≡ id)
unfolding auth_table principal_of
IsRevoked-refused id db hash commits now header p revoked h same =
    let (token, r, parsed, only, live, e) =
      authenticate_request-LetIn hash commits now header (auth_table db) p h in
    let marked : All (IsMarked id) (r ∷ []) = rw only at (
      select-All (IsMarked id) (λ (q : KeyRow). text_eq q.key_hash (hash token))
        (key_rows db db.keys) (key_rows-IsMarked id db db.keys revoked.all_revoked)) in
    let here : str_eq r.id id ≡ true = (str_eq_iff r.id id).1 (cc (e, same)) in
    absurd (cc (marked.0 here, live.0))

find-unknown :
    (id : String) (keys : List ApiKey)
    → known id keys ≡ false
    → find (λ (k : ApiKey). str_eq k.id id) keys ≡ none
unfolding known find
find-unknown id [] h = refl
find-unknown id (k ∷ ks) h = ground (arith, h, find-unknown id ks)

-- A key that is found has a row.
pub found-known :
    (id code : String) (keys : List ApiKey) (k : ApiKey)
    → found_or code (find (λ (j : ApiKey). str_eq j.id id) keys) ≡ ok k
    → known id keys ≡ true
found-known id code keys k h = elim (Bool-cases (known id keys)) [
  | inl e ↦ e
  | inr e ↦ absurd (cc (rw (find-unknown id keys e) at h))
]

revoke_found-IsRevoked :
    (now : ℕ) (id : String) (db : Database)
    → known id db.keys ≡ true
    → (found : Result ApiKey) {k : ApiKey} → (revoke_found now id db found).1 ≡ ok k
    → IsRevoked id (revoke_found now id db found).0.keys
unfolding revoke_found
revoke_found-IsRevoked now id db p (err e) h = absurd (cc)
revoke_found-IsRevoked now id db p (ok k) h = record {
  present = known-revoke_rows now id id db.keys ∙ p;
  all_revoked = revoke_rows-All now id db.keys;
}

revoke_found-ok :
    (now : ℕ) (id : String) (db : Database) (found : Result ApiKey) {k : ApiKey}
    → (revoke_found now id db found).1 ≡ ok k
    → (old : ApiKey) × (found ≡ ok old)
unfolding revoke_found
revoke_found-ok now id db (err e) h = absurd (cc)
revoke_found-ok now id db (ok old) h = (old, refl)

-- Once a revocation of a key has returned, no request is let in as that key: not with any header, at
-- any time, nor after any further calls that create users, clients or keys, revoke or rotate keys,
-- or mark them as used, as long as a new key gets an identifier that no key has.
pub revoke_api_key-refused :
    (db later : Database) (now : ℕ) (id : String) (k : ApiKey)
    → (revoke_api_key now id db).1 ≡ ok k
    → Reach (revoke_api_key now id db).0 later
    → (hash : Text → Text) (commits : Bool) (at : ℕ) (header : Option Text)
      (p : AuthenticatedPrincipal)
    → (authenticate_request hash commits at header (auth_table later)).1 ≡ ok p
    → ¬ (p.api_key_id ≡ id)
unfolding revoke_api_key get_api_key
revoke_api_key-refused db later now id k done reach hash commits at header p h =
    let (old, e) = revoke_found-ok now id db (get_api_key id db) done in
    let there : known id db.keys ≡ true = found-known id "api_key_not_found" db.keys old e in
    IsRevoked-refused id later hash commits at header p
      (Reach-IsRevoked id reach (revoke_found-IsRevoked now id db there (get_api_key id db) done)) h
