-- ===== src/ApiKeys/Tests.antt =====
-- Keys of app/core/api_keys.py.
use syn.Common.{◌≡◌, refl, false, ◌++◌}
use syn.Common.Text.{Text, codes, text_eq}
use syn.ApiKeys.{split_max, is_valid_format}

-- The digest that stands for SHA-256 here is the text itself.
abbrev digest : Text → Text
digest s = s

abbrev public_part : Text
public_part = codes "aB3xK9pQ"

abbrev secret_suffix : Text
secret_suffix = codes "0123456789_0123456789-0123456789_0123456789"

-- A key of another namespace.
wrong_namespace : is_valid_format (codes "syn_test_aB3xK9pQ_" ++ secret_suffix) ≡ false
unfolding is_valid_format split_max text_eq
wrong_namespace = refl
