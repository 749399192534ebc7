-- ===== src/Auth.antt =====
-- app/core/auth.py: the check of a request's API key. The digest is given, and the table of keys is
-- the list of its rows, each with its client, that client's user and the client's allowed models.
pub mod Bearer
pub mod Checks
mod Tests
use syn.Common.{
  ℕ, zero, suc, ◌+◌, String, Bool, true, false, ◌&&◌, not, Option, none, some, List, [], ◌∷◌, ◌++◌,
  map, leb, ltb, ◌==◌, is_empty, select, if◌then◌else◌,
}
use syn.Common.Text.{Text, codes, text_eq, is_space, drop_while, strip}
use syn.Errors.{
  ErrorClass, authentication_error, invalid_api_key, revoked_api_key, expired_api_key, SynError,
  make, raised, Exn, gateway, other, Result, ok, err, ◌>>=◌, ◌>>◌, reject_if,
}
use syn.Principal.{AuthenticatedPrincipal}
use syn.ApiKeys.{is_valid_format, verify_api_key}

pub record KeyRow : Type 0 where
  pub id : String
  pub key_prefix : Text
  pub key_hash : Text
  pub revoked_at : Option ℕ
  pub expires_at : Option ℕ
  pub last_used_at : Option ℕ
  pub client_id : String
  pub client_name : Text
  pub user_id : String
  pub user_name : Text
  pub model_rows : List String

-- The characters before the first space.
unfoldable pub word_of : Text → Text
word_of [] = []
word_of (c ∷ s) = if is_space c then [] else c ∷ word_of s

unfoldable pub after_word : Text → Text
after_word [] = []
after_word (c ∷ s) = if is_space c then c ∷ s else after_word s

-- s.lower(), which is compared with a word in ASCII
unfoldable pub lower : Text → Text
lower = map (λ c. if leb 65 c && leb c 90 then c + 32 else c)

abbrev pub unauthenticated : SynError
unauthenticated = raised authentication_error "authentication_required"

abbrev pub invalid : SynError
invalid = make invalid_api_key none none none

-- The end of `_extract_bearer_token`, for authorization_header.split(None, 1).
unfoldable pub token_of : Text → Text → Result Text
token_of scheme rest =
    reject_if (is_empty rest) unauthenticated
    >> (reject_if (not (text_eq (lower scheme) (codes "bearer"))) unauthenticated
        >> (reject_if (is_empty (strip rest)) invalid
            >> (reject_if (not (is_valid_format (strip rest))) invalid >> ok (strip rest))))

unfoldable pub extract_bearer_token : Option Text → Result Text
unfolding token_of
extract_bearer_token none = err (gateway unauthenticated)
extract_bearer_token (some header) =
    let s = drop_while is_space header in token_of (word_of s) (drop_while is_space (after_word s))

-- one_or_none, which raises an error of the database's library for several rows
unfoldable pub one_or_none : List KeyRow → Result (Option KeyRow)
one_or_none [] = ok none
one_or_none (r ∷ []) = ok (some r)
one_or_none (r ∷ q ∷ rs) = err other

-- api_key.expires_at is not None and api_key.expires_at <= now
unfoldable pub is_expired : ℕ → Option ℕ → Bool
is_expired now none = false
is_expired now (some t) = leb t now

abbrev pub is_set : Option ℕ → Bool
is_set none = false
is_set (some t) = true

-- The checks of the row that is found.
unfoldable pub check_row : (Text → Text) → ℕ → Text → Option KeyRow → Result KeyRow
unfolding is_expired
check_row hash now token none = err (gateway invalid)
check_row hash now token (some r) =
    reject_if (not (verify_api_key hash token r.key_hash)) invalid
    >> (reject_if (is_set r.revoked_at) (make revoked_api_key none none none)
        >> (reject_if (is_expired now r.expires_at) (make expired_api_key none none none) >> ok r))

unfoldable pub find_key : (Text → Text) → ℕ → List KeyRow → Text → Result KeyRow
unfolding check_row one_or_none
find_key hash now table token =
    one_or_none (select (λ (r : KeyRow). text_eq r.key_hash (hash token)) table)
    >>= check_row hash now token

-- _principal_from_api_key_with_session: no rows of allowed models are no restriction.
unfoldable pub principal_of : KeyRow → AuthenticatedPrincipal
principal_of r = record {
  user_id = r.user_id;
  user_name = r.user_name;
  client_id = r.client_id;
  client_name = r.client_name;
  api_key_id = r.id;
  api_key_prefix = r.key_prefix;
  allowed_models = if is_empty r.model_rows then none else some r.model_rows;
}

-- api_key.last_used_at = now, if the commit succeeds
unfoldable pub touch : Bool → ℕ → Text → List KeyRow → List KeyRow
touch commits now key_hash table =
    if commits
    then map
        (λ (r : KeyRow).
          if text_eq r.key_hash key_hash then record r { last_used_at = some now } else r)
        table
    else table

-- What is left of the table and what is answered, once the key is found or refused.
abbrev pub answer :
    Bool → ℕ → List KeyRow → Result KeyRow → List KeyRow × Result AuthenticatedPrincipal
answer commits now table (ok r) = (touch commits now r.key_hash table, ok (principal_of r))
answer commits now table (err e) = (table, err e)

-- authenticate_request, with a database: `commits` says whether the write of last_used_at succeeds.
unfoldable pub authenticate_request :
    (Text → Text)
    → Bool
    → ℕ
    → Option Text
    → List KeyRow
    → List KeyRow × Result AuthenticatedPrincipal
unfolding extract_bearer_token find_key
authenticate_request hash commits now header table =
    answer commits now table (extract_bearer_token header >>= find_key hash now table)

abbrev pub used : Bool → ℕ → KeyRow → KeyRow
used commits now r = if commits then record r { last_used_at = some now } else r

abbrev pub answer_with_orm :
    Bool → ℕ → List KeyRow → Result KeyRow → List KeyRow × Result (AuthenticatedPrincipal × KeyRow)
answer_with_orm commits now table (ok r) =
    (touch commits now r.key_hash table, ok (principal_of r, used commits now r))
answer_with_orm commits now table (err e) = (table, err e)

-- authenticate_with_orm, which answers the key's row, with its client, too
unfoldable pub authenticate_with_orm :
    (Text → Text)
    → Bool
    → ℕ
    → Option Text
    → List KeyRow
    → List KeyRow × Result (AuthenticatedPrincipal × KeyRow)
unfolding extract_bearer_token find_key
authenticate_with_orm hash commits now header table =
    answer_with_orm commits now table (extract_bearer_token header >>= find_key hash now table)
