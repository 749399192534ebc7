-- ===== src/AdminAuth.antt =====
-- app/core/admin_auth.py: the admin secret of a request against the configured one.
mod Tests
use syn.Common.{
  ℕ, ◌≡◌, refl, Bool, true, false, ◌&&◌, not, Option, none, some, List, [], ◌∷◌, ltb, is_empty,
  Option-cases, Bool-cases, inl, inr, arith, if◌then◌else◌, ◌↔◌,
}
use syn.Common.Text.{Text, codes, text_eq, text_eq_sound, text_eq_refl, is_space, drop_while, strip}
use syn.Errors.{make, admin_auth_error, Exn, gateway, other, Result, ok, err}
use syn.ApiKeys.{all_chars}
use syn.Auth.{word_of, after_word, lower}

abbrev pub refused : Exn
refused = gateway (make admin_auth_error none none none)

-- The token of authorization.split(None, 1), if the first word is "bearer".
unfoldable pub bearer : Text → Text → Option Text
bearer scheme rest =
    if not (is_empty rest) && text_eq (lower scheme) (codes "bearer")
    then some (strip rest)
    else none

from_authorization : Option Text → Option Text
from_authorization none = none
from_authorization (some header) =
    let s = drop_while is_space header in bearer (word_of s) (drop_while is_space (after_word s))

-- The secret that the request brings; a header that is empty counts as absent.
unfoldable pub provided : Option Text → Option Text → Option Text
unfolding from_authorization
provided (some (c ∷ s)) authorization = some (c ∷ s)
provided _ authorization = from_authorization authorization

-- hmac.compare_digest, which raises TypeError for a text that is not ASCII
unfoldable pub compare_digest : Text → Text → Result Bool
compare_digest a b =
    if all_chars (λ c. ltb c 128) a && all_chars (λ c. ltb c 128) b
    then ok (text_eq a b)
    else err other

abbrev accept : Result Bool → Result (Unit {0})
accept (ok true) = ok tt
accept (ok false) = err (gateway (make admin_auth_error none none none))
accept (err e) = err e

-- The checks of the secret that is found, if any.
unfoldable pub check_secret : Text → Option Text → Result (Unit {0})
unfolding compare_digest
check_secret expected none = err refused
check_secret expected (some []) = err refused
check_secret expected (some (c ∷ s)) = accept (compare_digest (c ∷ s) expected)

unfoldable pub require_admin : Text → Option Text → Option Text → Result (Unit {0})
unfolding provided check_secret
require_admin expected x_admin_secret authorization =
    if is_empty expected
    then err refused
    else check_secret expected (provided x_admin_secret authorization)

accept-compare_digest :
    (s expected : Text) → accept (compare_digest s expected) ≡ ok tt → s ≡ expected
unfolding compare_digest
accept-compare_digest s expected h = ground (arith, h, text_eq_sound s expected)

check_secret-ok :
    (expected : Text) (found : Option Text)
    → check_secret expected found ≡ ok tt
    → found ≡ some expected
unfolding check_secret
check_secret-ok expected none h = absurd (cc)
check_secret-ok expected (some []) h = absurd (cc)
check_secret-ok expected (some (c ∷ s)) h = cc (accept-compare_digest (c ∷ s) expected h)

accept-same : (s : Text) → all_chars (λ c. ltb c 128) s ≡ true → accept (compare_digest s s) ≡ ok tt
unfolding compare_digest
accept-same s h = rw (h, text_eq_refl s) refl

check_secret-same :
    (expected : Text)
    → is_empty expected ≡ false
    → all_chars (λ c. ltb c 128) expected ≡ true
    → check_secret expected (some expected) ≡ ok tt
unfolding check_secret
check_secret-same [] e h = cc
check_secret-same (c ∷ s) e h = accept-same (c ∷ s) h

-- With a configured secret in ASCII, exactly the requests that bring it, in the header for it or as
-- a bearer token, are admitted; with none configured, no request is.
pub require_admin_iff :
    (expected : Text) (x_admin_secret authorization : Option Text)
    → all_chars (λ c. ltb c 128) expected ≡ true
    → (require_admin expected x_admin_secret authorization ≡ ok tt)
      ↔ ((is_empty expected ≡ false) × (provided x_admin_secret authorization ≡ some expected))
unfolding require_admin
require_admin_iff [] x a h = ((λ r. absurd (cc)), (λ r. absurd (cc)))
require_admin_iff (c ∷ s) x a h = (
  (λ r. (refl, check_secret-ok (c ∷ s) (provided x a) r)),
  (λ (e, p). rw p (check_secret-same (c ∷ s) e h)),
)
