-- ===== src/Admin/Rotation.antt =====
-- What the rotation of a key in app/services/admin.py leaves behind.
use mathlib.Core.List.{append_assoc}
use syn.Common.{
  ℕ, String, ◌≡◌, refl, sym, ◌∙◌, ap, Bool, true, false, Option, none, some, inl, inr, List, [],
  ◌∷◌, ◌++◌, arith, All, str_eq, str_eq_iff, if◌then◌else◌, Bool-cases, is_empty,
}
use syn.Common.Text.{Text, codes, text_eq, strip, rstrip, drop_while, is_space}
use syn.Errors.{Result, ok}
use syn.ApiKeys.{generate_api_key}
use syn.Auth.{is_set, is_expired, authenticate_request}
use syn.Admin.{
  Stamp, User, Client, ApiKey, Database, find, found_or, get_user, get_client,
  get_client_allowed_models,
}
use syn.Admin.Keys.{
  new_key, issue, create_api_key, get_api_key, revoke_row, revoke_rows, revoke_found,
  revoke_api_key, rotated_name, retire_old, rotate_found, rotate_api_key, auth_table,
}
use syn.Admin.Revocation.{known, known-append, IsRevoked, revoke_rows-All, known-revoke_rows}
use syn.Admin.Refusal.{found-known}
use syn.Admin.Creation.{
  AreKeyParts, token, bearer, principal_for, get_client-id, last_key-authenticates,
}

kept :
    (d : ℕ) (r : Text)
    → is_empty r ≡ false
    → is_empty {A = ℕ} (elim r [ [] ↦ if is_space d then [] else d ∷ [] | e ∷ t ↦ d ∷ e ∷ t ])
      ≡ false
kept d [] h = absurd (cc)
kept d (e ∷ t) h = refl

-- A text that ends in a character that is no white space is not stripped to nothing.
rstrip-kept :
    (s : Text) (c : ℕ) → is_space c ≡ false → is_empty (rstrip is_space (s ++ c ∷ [])) ≡ false
unfolding rstrip
rstrip-kept [] c h = rw h refl
rstrip-kept (d ∷ s) c h = kept d (rstrip is_space (s ++ c ∷ [])) (rstrip-kept s c h)

strip-kept : (s : Text) (c : ℕ) → is_space c ≡ false → is_empty (strip (s ++ c ∷ [])) ≡ false
unfolding strip drop_while
strip-kept [] c h = rw h (rstrip-kept [] c h)
strip-kept (d ∷ s) c h = elim (Bool-cases (is_space d)) [
  | inl e ↦ rw e (strip-kept s c h)
  | inr e ↦ rw e (rstrip-kept (d ∷ s) c h)
]

strip-rotated_name : (name : Text) → is_empty (strip (rotated_name name)) ≡ false
unfolding rotated_name is_space
strip-rotated_name name =
    rw (← append_assoc name (codes " (rotated") (b')' ∷ []))
      (strip-kept (name ++ codes " (rotated") b')' refl)

revoke_rows-append :
    (now : ℕ) (id : String) (ks : List ApiKey) (k : ApiKey)
    → str_eq k.id id ≡ false
    → revoke_rows now id (ks ++ k ∷ []) ≡ revoke_rows now id ks ++ k ∷ []
unfolding revoke_rows
revoke_rows-append now id [] k h = rw h refl
revoke_rows-append now id (j ∷ ks) k h =
    ap (λ rs. (if str_eq j.id id then revoke_row now j else j) ∷ rs)
      (revoke_rows-append now id ks k h)

revoke_rows-others :
    (digest : Text) (now : ℕ) (id : String) (ks : List ApiKey)
    → All (λ j. text_eq j.key_hash digest ≡ false) ks
    → All (λ j. text_eq j.key_hash digest ≡ false) (revoke_rows now id ks)
unfolding revoke_rows revoke_row
revoke_rows-others digest now id [] a = tt
revoke_rows-others digest now id (k ∷ ks) a =
    (ground (arith, a.0), revoke_rows-others digest now id ks a.1)

found-append :
    (id code : String) (ks : List ApiKey) (k : ApiKey) {old : ApiKey}
    → found_or code (find (λ (j : ApiKey). str_eq j.id id) ks) ≡ ok old
    → found_or code (find (λ (j : ApiKey). str_eq j.id id) (ks ++ k ∷ [])) ≡ ok old
unfolding find
found-append id code [] k h = absurd (cc)
found-append id code (j ∷ ks) k h = elim (Bool-cases (str_eq j.id id)) [
  | inl e ↦ rw e (rw e at h)
  | inr e ↦ rw e (found-append id code ks k (rw e at h))
]

found-id :
    (id code : String) (ks : List ApiKey) (old : ApiKey)
    → found_or code (find (λ (j : ApiKey). str_eq j.id id) ks) ≡ ok old
    → old.id ≡ id
unfolding find
found-id id code [] old h = absurd (cc)
found-id id code (j ∷ ks) old h = elim (Bool-cases (str_eq j.id id)) [
  | inl e ↦
      let same : j ≡ old = cc (rw e at h) in ap (λ x. x.id) (sym same) ∙ (str_eq_iff j.id id).0 e
  | inr e ↦ found-id id code ks old (rw e at h)
]

-- A key that is found is found by its own identifier, also when another is added.
get_api_key-added :
    (id : String) (db : Database) (k old : ApiKey)
    → get_api_key id db ≡ ok old
    → get_api_key old.id (record db { keys = db.keys ++ k ∷ [] }) ≡ ok old
unfolding get_api_key
get_api_key-added id db k old h =
    ap
      (λ i. found_or "api_key_not_found" (find (λ (j : ApiKey). str_eq j.id i) (db.keys ++ k ∷ [])))
      (found-id id "api_key_not_found" db.keys old h)
    ∙ found-append id "api_key_not_found" db.keys k h

get_api_key-known :
    (id : String) (db : Database) (old : ApiKey)
    → get_api_key id db ≡ ok old
    → known old.id db.keys ≡ true
unfolding get_api_key
get_api_key-known id db old h =
    ap (λ i. known i db.keys) (found-id id "api_key_not_found" db.keys old h)
    ∙ found-known id "api_key_not_found" db.keys old h

-- A fresh identifier is none of those that are known.
apart_of :
    (fresh old : String) (keys : List ApiKey)
    → known fresh keys ≡ false
    → known old keys ≡ true
    → str_eq fresh old ≡ false
apart_of fresh old keys n y = elim (Bool-cases (str_eq fresh old)) [
  | inl e ↦ absurd (ground (arith, n, y, ap (λ i. known i keys) ((str_eq_iff fresh old).0 e)))
  | inr e ↦ e
]

module _ (hash : Text → Text) (commits : Bool) (at : ℕ) (public secret : Text)
    (parts : AreKeyParts public secret) where
  abbrev key_token : Text
  key_token = token hash commits at public secret parts

  abbrev key_bearer : Option Text
  key_bearer = bearer hash commits at public secret parts

  -- What a rotation leaves: the new token authenticates for the old key's client and never expires,
  -- and the old key is revoked.
  abbrev pub Rotated :
      Database
      → ApiKey
      → ApiKey
      → Client
      → User
      → Database × Result (ApiKey × Text × Option ApiKey)
      → Type 0
  Rotated db old k client user rotation =
      (rotation.1 ≡ ok (k, key_token, some (revoke_row k.created_at old)))
      × ((authenticate_request hash commits at (key_bearer) (auth_table rotation.0)).1
          ≡ ok (principal_for db k client user))
      × IsRevoked old.id rotation.0.keys

  retired :
      (db : Database) (id : String) (old k : ApiKey) (client : Client) (user : User)
      → get_api_key id db ≡ ok old
      → get_client k.client_id db ≡ ok client
      → get_user client.user_id db ≡ ok user
      → All (λ j. text_eq j.key_hash (hash key_token) ≡ false) db.keys
      → known k.id db.keys ≡ false
      → k.key_hash ≡ hash key_token
      → is_set k.revoked_at ≡ false
      → is_expired at k.expires_at ≡ false
      → Rotated db old k client user (
          retire_old true k.created_at old.id
            (record db { keys = db.keys ++ k ∷ [] }, ok (k, key_token)))
  unfolding retire_old revoke_api_key revoke_found get_client get_user get_client_allowed_models
  retired db id old k client user found c u others fresh digest live valid =
      let now = k.created_at in
      let there : known old.id db.keys ≡ true = get_api_key-known id db old found in
      let apart : str_eq k.id old.id ≡ false = apart_of k.id old.id db.keys fresh there in
      rw (get_api_key-added id db k old found) (
        refl,
        last_key-authenticates hash commits at public secret parts
            (record db { keys = revoke_rows now old.id (db.keys ++ k ∷ []) })
            (revoke_rows now old.id db.keys) k client user
            (revoke_rows-others (hash key_token) now old.id db.keys others)
            (revoke_rows-append now old.id db.keys k apart) digest live valid c u,
        record {
          present =
              known-revoke_rows now old.id old.id (db.keys ++ k ∷ [])
              ∙ known-append old.id db.keys k
              ∙ rw there refl;
          all_revoked = revoke_rows-All now old.id (db.keys ++ k ∷ []);
        },
      )

  -- A rotation that also revokes answers a new token, which authenticates at any time for the old key's client,
  -- with its user and its allowed models, and leaves the old key revoked, when the old key, its client
  -- and its user exist, the new identifier is fresh and no key has the new digest. The new key has
  -- no time of expiry, whatever the old one had.
  pub rotate_api_key-Rotated :
      (db : Database) (new : Stamp) (id : String) (old : ApiKey) (client : Client) (user : User)
      → get_api_key id db ≡ ok old
      → get_client old.client_id db ≡ ok client
      → get_user client.user_id db ≡ ok user
      → All (λ j. text_eq j.key_hash (hash key_token) ≡ false) db.keys
      → known new.id db.keys ≡ false
      → (let generated = generate_api_key hash public secret in
          Rotated db old
            (new_key new generated client.id (strip (rotated_name old.name)) none)
            client
            user
            (rotate_api_key new generated id true db))
  unfolding rotate_api_key rotate_found create_api_key issue new_key generate_api_key is_expired
  rotate_api_key-Rotated db new id old client user found c u others fresh =
      rw (found, strip-rotated_name old.name, c)
        (retired db id old
          (new_key new (generate_api_key hash public secret) client.id
            (strip (rotated_name old.name)) none)
          client user found (get_client-id db old.client_id client c) u others fresh refl refl refl)
