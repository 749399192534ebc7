-- ===== src/ApiKeys.antt =====
-- app/core/api_keys.py: the format of API keys. The random parts of a key and its SHA-256 digest are
-- given, since other libraries make them.
pub mod Format
mod Tests
use syn.Common.{
  ℕ, zero, suc, Bool, true, false, ◌&&◌, ◌||◌, not, List, [], ◌∷◌, ◌++◌, leb, ◌==◌, length, take,
  is_empty, if◌then◌else◌,
}
use syn.Common.Text.{Text, codes, text_eq}

-- _VISIBLE_PREFIX_LEN: the length of "syn_live", and 1 and 8.
abbrev pub visible_prefix_len : ℕ
visible_prefix_len = 17

-- c in string.ascii_letters + string.digits
unfoldable pub is_alnum : ℕ → Bool
is_alnum c = (leb 97 c && leb c 122) || (leb 65 c && leb c 90) || (leb 48 c && leb c 57)

-- all(test(c) for c in s)
unfoldable pub all_chars : (ℕ → Bool) → Text → Bool
all_chars p [] = true
all_chars p (c ∷ s) = if p c then all_chars p s else false

abbrev pub cons_first : ℕ → List Text → List Text
cons_first d [] = (d ∷ []) ∷ []
cons_first d (x ∷ xs) = (d ∷ x) ∷ xs

-- s.split(c, n)
unfoldable pub split_max : ℕ → ℕ → Text → List Text
split_max c zero s = s ∷ []
split_max c (suc n) [] = [] ∷ []
split_max c (suc n) (d ∷ s) = elim (d == c) [
  | true ↦ [] ∷ split_max c n s
  | false ↦ cons_first d (split_max c (suc n) s)
]

valid_parts : List Text → Bool
valid_parts (a ∷ b ∷ public ∷ secret ∷ []) =
    text_eq a (codes "syn")
    && text_eq b (codes "live")
    && length public == 8
    && all_chars is_alnum public
    && leb 32 (length secret)
valid_parts _ = false

unfoldable pub is_valid_format : Text → Bool
unfolding valid_parts
is_valid_format token = if is_empty token then false else valid_parts (split_max b'_' 3 token)

unfoldable pub visible_prefix : Text → Text
visible_prefix token = take visible_prefix_len token

unfoldable pub verify_api_key : (Text → Text) → Text → Text → Bool
verify_api_key hash token expected_hash = text_eq (hash token) expected_hash

pub record GeneratedKey : Type 0 where
  pub full_token : Text
  pub key_prefix : Text
  pub key_hash : Text

unfoldable pub generate_api_key : (Text → Text) → Text → Text → GeneratedKey
unfolding visible_prefix
generate_api_key hash public_part secret_suffix =
    let full_token = codes "syn_live_" ++ public_part ++ b'_' ∷ secret_suffix in
    record {
      full_token = full_token;
      key_prefix = visible_prefix full_token;
      key_hash = hash full_token;
    }
