-- ===== src/Admin/Creation.antt =====
-- A key that app/services/admin.py creates is let in by app/core/auth.py.
use mathlib.Core.List.{append_assoc, append-nil}
use syn.Common.{
  ℕ, String, ◌≡◌, ◌≤◌, refl, sym, ◌∙◌, ap, Bool, true, false, Option, none, some, inl, inr, List,
  [], ◌∷◌, ◌++◌, All, str_eq, str_eq_iff, select, select-append, length, if◌then◌else◌, Bool-cases,
  is_empty,
}
use syn.Common.Text.{Text, codes, text_eq, text_eq_refl, strip}
use syn.Errors.{Result, ok, err}
use syn.Principal.{AuthenticatedPrincipal}
use syn.ApiKeys.{generate_api_key, all_chars, is_alnum}
use syn.Auth.{KeyRow, is_set, is_expired, authenticate_request, principal_of}
use syn.Auth.Bearer.{IsSpaceless}
use syn.Auth.Checks.{authenticate_request-generated}
use syn.Admin.{
  Stamp, User, Client, ApiKey, Database, find, found_or, get_user, get_client,
  get_client_allowed_models,
}
use syn.Admin.Keys.{
  new_key, issue, create_api_key, row_for, row_with, rows_with, key_rows, auth_table,
}

key_rows-append :
    (db : Database) (ks : List ApiKey) (k : ApiKey)
    → key_rows db (ks ++ k ∷ []) ≡ key_rows db ks ++ rows_with db k (get_client k.client_id db)
unfolding key_rows
key_rows-append db [] k = append-nil (rows_with db k (get_client k.client_id db))
key_rows-append db (j ∷ ks) k =
    ap (λ rs. rows_with db j (get_client j.client_id db) ++ rs) (key_rows-append db ks k)
    ∙ sym (
        append_assoc (rows_with db j (get_client j.client_id db)) (key_rows db ks)
          (rows_with db k (get_client k.client_id db)))

pub find-id :
    (client_id : String) (cs : List Client) (client : Client)
    → found_or "client_not_found" (find (λ (c : Client). str_eq c.id client_id) cs) ≡ ok client
    → client.id ≡ client_id
unfolding find
find-id client_id [] client h = absurd (cc)
find-id client_id (c ∷ cs) client h = elim (Bool-cases (str_eq c.id client_id)) [
  | inl e ↦
      let same : c ≡ client = cc (rw e at h) in
      ap (λ x. x.id) (sym same) ∙ (str_eq_iff c.id client_id).0 e
  | inr e ↦ find-id client_id cs client (rw e at h)
]

-- A client that is found has the identifier that was looked for.
pub get_client-id :
    (db : Database) (client_id : String) (client : Client)
    → get_client client_id db ≡ ok client
    → get_client client.id db ≡ ok client
unfolding get_client
get_client-id db client_id client h =
    ap (λ i. get_client i db) (find-id client_id db.clients client h) ∙ h

module _ (digest : Text) where
  abbrev has_digest : KeyRow → Bool
  has_digest q = text_eq q.key_hash digest

  row_with-other :
      (db : Database) (k : ApiKey) (client : Client) (user : Result User)
      → text_eq k.key_hash digest ≡ false
      → select has_digest (row_with db k client user) ≡ []
  unfolding row_with row_for
  row_with-other db k client (err e) h = refl
  row_with-other db k client (ok user) h = rw h refl

  rows_with-other :
      (db : Database) (k : ApiKey) (client : Result Client)
      → text_eq k.key_hash digest ≡ false
      → select has_digest (rows_with db k client) ≡ []
  unfolding rows_with
  rows_with-other db k (err e) h = refl
  rows_with-other db k (ok client) h = row_with-other db k client (get_user client.user_id db) h

  key_rows-other :
      (db : Database) (ks : List ApiKey)
      → All (λ k. text_eq k.key_hash digest ≡ false) ks
      → select has_digest (key_rows db ks) ≡ []
  unfolding key_rows
  key_rows-other db [] a = refl
  key_rows-other db (k ∷ ks) a =
      let rows = rows_with db k (get_client k.client_id db) in
      select-append has_digest rows (key_rows db ks)
      ∙ ap (λ rs. rs ++ select has_digest (key_rows db ks))
          (rows_with-other db k (get_client k.client_id db) a.0)
      ∙ key_rows-other db ks a.1

-- The principal of a key of a client and its user.
abbrev pub principal_for : Database → ApiKey → Client → User → AuthenticatedPrincipal
principal_for db k client user =
    let models = get_client_allowed_models client.id db in
    record {
      user_id = user.id;
      user_name = user.name;
      client_id = client.id;
      client_name = client.name;
      api_key_id = k.id;
      api_key_prefix = k.key_prefix;
      allowed_models = if is_empty models then none else some models;
    }

-- The parts of a generated key that the format takes.
pub record AreKeyParts (public secret : Text) : Type 0 where
  pub public_length : length public ≡ 8
  pub public_alnum : all_chars is_alnum public ≡ true
  pub secret_length : 32 ≤ length secret
  pub spaceless : IsSpaceless (codes "syn_live_" ++ public ++ b'_' ∷ secret)

module _ (hash : Text → Text) (commits : Bool) (at : ℕ) (public secret : Text)
    (parts : AreKeyParts public secret) where
  abbrev pub token : Text
  token = codes "syn_live_" ++ public ++ b'_' ∷ secret

  abbrev pub bearer : Option Text
  bearer = some (codes "Bearer " ++ token)

  -- The last key is let in, when the keys before it have other digests.
  pub last_key-authenticates :
      (db : Database) (front : List ApiKey) (k : ApiKey) (client : Client) (user : User)
      → All (λ j. text_eq j.key_hash (hash token) ≡ false) front
      → db.keys ≡ front ++ k ∷ []
      → k.key_hash ≡ hash token
      → is_set k.revoked_at ≡ false
      → is_expired at k.expires_at ≡ false
      → get_client k.client_id db ≡ ok client
      → get_user client.user_id db ≡ ok user
      → (authenticate_request hash commits at bearer (auth_table db)).1
        ≡ ok (principal_for db k client user)
  unfolding auth_table principal_of generate_api_key rows_with row_with row_for
  last_key-authenticates db front k client user others keys digest live fresh c u =
      authenticate_request-generated hash commits at (key_rows db db.keys) public secret
        (row_for db k client user) parts.public_length parts.public_alnum parts.secret_length
        parts.spaceless
        (ap (λ ks. select (has_digest (hash token)) (key_rows db ks)) keys
          ∙ ap (select (has_digest (hash token))) (key_rows-append db front k)
          ∙ select-append (has_digest (hash token)) (key_rows db front)
              (rows_with db k (get_client k.client_id db))
          ∙ ap
              (λ rs.
                rs ++ select (has_digest (hash token)) (rows_with db k (get_client k.client_id db)))
              (key_rows-other (hash token) db front others)
          ∙ rw (c, u, digest, text_eq_refl (hash token)) refl)
        (live, fresh) digest

  -- The call has created the key and answered its token, which authenticates for the client's
  -- principal.
  abbrev pub Created :
      Database → ApiKey → Client → User → Database × Result (ApiKey × Text) → Type 0
  Created db k client user created =
      (created.1 ≡ ok (k, token))
      × ((authenticate_request hash commits at bearer (auth_table created.0)).1
          ≡ ok (principal_for db k client user))

  issue-Created :
      (db : Database) (new : Stamp) (name : Text) (expires_at : Option ℕ) (client : Client)
      (user : User)
      → get_client client.id db ≡ ok client
      → get_user client.user_id db ≡ ok user
      → All (λ j. text_eq j.key_hash (hash token) ≡ false) db.keys
      → is_expired at expires_at ≡ false
      → (let generated = generate_api_key hash public secret in
          Created db
            (new_key new generated client.id name expires_at)
            client
            user
            (issue new generated name expires_at db (ok client)))
  unfolding issue new_key generate_api_key get_client get_user get_client_allowed_models
  issue-Created db new name expires_at client user c u others fresh =
      let k = new_key new (generate_api_key hash public secret) client.id name expires_at in
      (
        refl,
        last_key-authenticates (record db { keys = db.keys ++ k ∷ [] }) db.keys k client user others
            refl refl refl fresh c u,
      )

  -- A key that is created for a client is answered with its token, and the token authenticates until
  -- it expires, for a principal that has the key, the client, its user and its allowed models, when
  -- the name is not blank, the client and its user exist, and no key has the same digest.
  pub create_api_key-authenticates :
      (db : Database) (new : Stamp) (client_id : String) (name : Text) (expires_at : Option ℕ)
      (client : Client) (user : User)
      → is_empty (strip name) ≡ false
      → get_client client_id db ≡ ok client
      → get_user client.user_id db ≡ ok user
      → All (λ j. text_eq j.key_hash (hash token) ≡ false) db.keys
      → is_expired at expires_at ≡ false
      → (let generated = generate_api_key hash public secret in
          Created db
            (new_key new generated client.id (strip name) expires_at)
            client
            user
            (create_api_key new generated client_id name expires_at db))
  unfolding create_api_key
  create_api_key-authenticates db new client_id name expires_at client user n c u others fresh =
      rw (n, c)
        (issue-Created db new (strip name) expires_at client user
          (get_client-id db client_id client c) u others fresh)
