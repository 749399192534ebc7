-- ===== src/Settings/Tests.antt =====
-- Settings that are accepted and refused, and the theorem at the defaults.
use syn.Common.{◌≡◌, refl, none, some, [], ◌∷◌}
use syn.Common.Int.{pos}
use syn.Common.Text.{codes, text_eq, strip, split, starts_with, is_space, drop_while, rstrip}
use syn.Settings.{
  Settings, finite, nan, upper, one_of, validate_cors, cors_origins_list, validate,
  validate_timeout,
}
use syn.Settings.Valid.{IsValid, validate-IsValid}

abbrev defaults : Settings
defaults = record {
  port = pos 8001;
  log_level = codes "INFO";
  backend_timeout_seconds = finite (pos 120);
  backend_connect_timeout_seconds = finite (pos 10);
  backend_health_timeout_seconds = finite (pos 5);
  max_active_requests = pos 1;
  max_queue_size = pos 8;
  queue_timeout_seconds = finite (pos 30);
  default_requests_per_minute = pos 0;
  default_requests_per_day = pos 0;
  default_tokens_per_day = pos 0;
  max_request_body_bytes = pos 1048576;
  cors_allowed_origins = codes "https://a.example, ,http://b.example";
}

abbrev given : Settings
given = record defaults { log_level = codes " info " }

accepted : validate given ≡ some defaults
unfolding validate strip drop_while rstrip is_space split starts_with text_eq upper one_of
accepted = refl

no_slots : validate (record given { max_active_requests = pos 0 }) ≡ none
unfolding validate strip drop_while rstrip is_space split starts_with text_eq upper one_of
no_slots = refl

wildcard : validate_cors (codes "https://a.example,*") ≡ none
unfolding validate_cors strip drop_while rstrip is_space split starts_with text_eq
wildcard = refl

parsed : cors_origins_list given ≡ codes "https://a.example" ∷ codes "http://b.example" ∷ []
unfolding cors_origins_list strip drop_while rstrip is_space split
parsed = refl

-- A timeout that is not a number passes the test for positive values.
nan_passes : validate_timeout nan ≡ some nan
unfolding validate_timeout
nan_passes = refl

validate-IsValid_example : IsValid defaults × (validate defaults ≡ some defaults)
validate-IsValid_example = validate-IsValid given defaults accepted
