-- ===== src/Auth/Bearer.antt =====
-- The bearer header of app/core/auth.py.
use syn.Common.{◌≡◌, refl, ◌∙◌, ap, true, not, some, [], ◌∷◌, ◌++◌, arith}
use syn.Common.Text.{Text, codes, text_eq, is_space, drop_while, rstrip, strip}
use syn.Errors.{ok}
use syn.ApiKeys.{all_chars, is_valid_format}
use syn.Auth.{word_of, after_word, lower, token_of, extract_bearer_token}

-- A text without spaces.
abbrev pub IsSpaceless : Text → Type 0
IsSpaceless s = all_chars (λ c. not (is_space c)) s ≡ true

drop_while-spaceless : (s : Text) → IsSpaceless s → drop_while is_space s ≡ s
unfolding drop_while all_chars
drop_while-spaceless [] h = refl
drop_while-spaceless (c ∷ s) h = ground (arith, h)

rstrip-spaceless : (s : Text) → IsSpaceless s → rstrip is_space s ≡ s
unfolding rstrip all_chars
rstrip-spaceless [] h = refl
rstrip-spaceless (c ∷ s) h = ground (arith, h, rstrip-spaceless s)

strip-spaceless : (s : Text) → IsSpaceless s → strip s ≡ s
unfolding strip
strip-spaceless s h = ap (rstrip is_space) (drop_while-spaceless s h) ∙ rstrip-spaceless s h

token_of-valid :
    (token : Text)
    → IsSpaceless token
    → is_valid_format token ≡ true
    → token_of (codes "Bearer") token ≡ ok token
unfolding token_of lower text_eq
token_of-valid [] s v = absurd (unfold is_valid_format in cc)
token_of-valid (c ∷ token) s v = rw (strip-spaceless (c ∷ token) s, v) refl

-- A key of the right format without spaces is the token of its own bearer header.
pub extract_bearer_token-valid :
    (token : Text)
    → IsSpaceless token
    → is_valid_format token ≡ true
    → extract_bearer_token (some (codes "Bearer " ++ token)) ≡ ok token
unfolding extract_bearer_token word_of after_word drop_while is_space
extract_bearer_token-valid token s v =
    ap (token_of (codes "Bearer")) (drop_while-spaceless token s) ∙ token_of-valid token s v
