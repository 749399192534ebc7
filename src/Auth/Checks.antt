-- ===== src/Auth/Checks.antt =====
-- Which requests app/core/auth.py lets in.
use syn.Common.{
  ℕ, ◌≡◌, ◌≤◌, refl, ◌∙◌, ap, Bool, true, false, Option, none, some, List, [], ◌∷◌, ◌++◌, arith,
  select, length,
}
use syn.Common.Text.{Text, codes, text_eq, text_eq_sound, text_eq_refl}
use syn.Errors.{Result, ok, err, ◌>>=◌, >>=-cases}
use syn.Principal.{AuthenticatedPrincipal}
use syn.ApiKeys.{all_chars, is_alnum, verify_api_key, generate_api_key}
use syn.ApiKeys.Format.{generate_api_key-valid}
use syn.Auth.{
  KeyRow, extract_bearer_token, one_or_none, is_expired, is_set, check_row, find_key, principal_of,
  answer, answer_with_orm, authenticate_with_orm, authenticate_request,
}
use syn.Auth.Bearer.{IsSpaceless, extract_bearer_token-valid}

-- The row is not revoked, and not expired at the time.
abbrev pub IsLive : ℕ → KeyRow → Type 0
IsLive now r = (is_set r.revoked_at ≡ false) × (is_expired now r.expires_at ≡ false)

check_row-ok :
    (hash : Text → Text) (now : ℕ) (token : Text) (found : Option KeyRow) {r : KeyRow}
    → check_row hash now token found ≡ ok r
    → (found ≡ some r) × IsLive now r × (hash token ≡ r.key_hash)
unfolding check_row verify_api_key
check_row-ok hash now token none h = absurd (cc)
check_row-ok hash now token (some q) {r} h =
    ground (arith, h, text_eq_sound (hash token) q.key_hash)

module _ (hash : Text → Text) (commits : Bool) (now : ℕ) (table : List KeyRow) where
  find_key-only :
      (token : Text) (r : KeyRow)
      → select (λ (q : KeyRow). text_eq q.key_hash (hash token)) table ≡ r ∷ []
      → IsLive now r
      → r.key_hash ≡ hash token
      → find_key hash now table token ≡ ok r
  unfolding find_key one_or_none check_row verify_api_key
  find_key-only token r only (u, x) e = rw (only, e, text_eq_refl (hash token), u, x) refl

  -- A key that was generated, and whose row is the only one with its hash, and neither revoked nor
  -- expired, is let in with its bearer header, for the principal of that row; the random parts of
  -- a key hold no spaces.
  pub authenticate_request-generated :
      (public secret : Text) (r : KeyRow)
      → length public ≡ 8
      → all_chars is_alnum public ≡ true
      → 32 ≤ length secret
      → let token = (generate_api_key hash public secret).full_token in
        IsSpaceless token
        → select (λ (q : KeyRow). text_eq q.key_hash (hash token)) table ≡ r ∷ []
        → IsLive now r
        → r.key_hash ≡ hash token
        → (authenticate_request hash commits now (some (codes "Bearer " ++ token)) table).1
          ≡ ok (principal_of r)
  unfolding authenticate_request
  authenticate_request-generated public secret r l a m s only live e =
      let token = (generate_api_key hash public secret).full_token in
      let valid = (generate_api_key-valid hash public secret l a m).0 in
      ap (λ t. (answer commits now table (t >>= find_key hash now table)).1)
        (extract_bearer_token-valid token s valid)
      ∙ ap (λ k. (answer commits now table k).1) (find_key-only token r only live e)

one_or_none-some :
    (rows : List KeyRow) {r : KeyRow} → one_or_none rows ≡ ok (some r) → rows ≡ r ∷ []
unfolding one_or_none
one_or_none-some [] h = absurd (cc)
one_or_none-some (q ∷ []) h = cc
one_or_none-some (q ∷ p ∷ rows) h = absurd (cc)

answer-ok :
    (commits : Bool) (now : ℕ) (table : List KeyRow) (found : Result KeyRow)
    {p : AuthenticatedPrincipal}
    → (answer commits now table found).1 ≡ ok p
    → (r : KeyRow) × (found ≡ ok r) × (p ≡ principal_of r)
answer-ok commits now table (ok r) h = (r, refl, cc)
answer-ok commits now table (err e) h = absurd (cc)

-- Why a request is let in for a principal: its header holds a token, and the principal is that of
-- the only row with the token's hash, which is neither revoked nor expired.
abbrev pub LetIn : (Text → Text) → ℕ → Option Text → List KeyRow → AuthenticatedPrincipal → Type 0
LetIn hash now header table p =
    (token : Text) × (r : KeyRow) × (extract_bearer_token header ≡ ok token)
    × (select (λ (q : KeyRow). text_eq q.key_hash (hash token)) table ≡ r ∷ [])
    × IsLive now r
    × (p ≡ principal_of r)

find_key-ok :
    (hash : Text → Text) (now : ℕ) (table : List KeyRow) (token : Text) {r : KeyRow}
    → find_key hash now table token ≡ ok r
    → (select (λ (q : KeyRow). text_eq q.key_hash (hash token)) table ≡ r ∷ []) × IsLive now r
unfolding find_key
find_key-ok hash now table token h =
    >>=-cases (one_or_none _) (check_row hash now token) h λ found e c.
      let (same, live, _) = check_row-ok hash now token found c in
      (one_or_none-some _ (e ∙ ap ok same), live)

-- A request is let in only with the token of a key that is in the table once, and that is neither
-- revoked nor expired, and then for the principal of that key.
pub authenticate_request-LetIn :
    (hash : Text → Text) (commits : Bool) (now : ℕ) (header : Option Text) (table : List KeyRow)
    (p : AuthenticatedPrincipal)
    → (authenticate_request hash commits now header table).1 ≡ ok p
    → LetIn hash now header table p
unfolding authenticate_request
authenticate_request-LetIn hash commits now header table p h =
    let (r, found, same) = answer-ok commits now table _ h in
    >>=-cases (extract_bearer_token header) (find_key hash now table) found λ token e k.
      let (only, live) = find_key-ok hash now table token k in (token, r, e, only, live, same)

abbrev pub principal_answered :
    Result (AuthenticatedPrincipal × KeyRow) → Result AuthenticatedPrincipal
principal_answered (ok (p, r)) = ok p
principal_answered (err e) = err e

same_answer :
    (commits : Bool) (now : ℕ) (table : List KeyRow) (found : Result KeyRow)
    → ((answer_with_orm commits now table found).0 ≡ (answer commits now table found).0)
      × (principal_answered (answer_with_orm commits now table found).1
          ≡ (answer commits now table found).1)
same_answer commits now table (ok r) = (refl, refl)
same_answer commits now table (err e) = (refl, refl)

-- The dependency that answers the database's rows too lets in the same requests for the same
-- principals, refuses the others with the same errors, and leaves the same table.
pub authenticate_with_orm-authenticate_request :
    (hash : Text → Text) (commits : Bool) (now : ℕ) (header : Option Text) (table : List KeyRow)
    → ((authenticate_with_orm hash commits now header table).0
        ≡ (authenticate_request hash commits now header table).0)
      × (principal_answered (authenticate_with_orm hash commits now header table).1
          ≡ (authenticate_request hash commits now header table).1)
unfolding authenticate_with_orm authenticate_request
authenticate_with_orm-authenticate_request hash commits now header table =
    same_answer commits now table (extract_bearer_token header >>= find_key hash now table)
