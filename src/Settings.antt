-- ===== src/Settings.antt =====
-- app/config.py: the validators of the settings. The environment and its conversion to the types of
-- the fields are pydantic's. A `float` is not a number, infinite, or a whole number of some small
-- unit; the fields that no validator reads are left out.
pub mod Valid
mod Tests
use syn.Common.{
  ℕ, ◌-◌, ◌*◌, String, Bool, true, false, ◌&&◌, ◌||◌, not, Option, none, some, List, [], ◌∷◌, ◌==◌,
  ltb, leb, is_empty, if◌then◌else◌,
}
use syn.Common.Int.{ℤ, pos, negsuc}
use syn.Common.Text.{Text, codes, text_eq, strip, split, starts_with}

pub data Float : Type 0 where
  nan infinity minus_infinity : Float
  finite : ℤ → Float

pub record Settings : Type 0 where
  pub port : ℤ
  pub log_level : Text
  pub backend_timeout_seconds : Float
  pub backend_connect_timeout_seconds : Float
  pub backend_health_timeout_seconds : Float
  pub max_active_requests : ℤ
  pub max_queue_size : ℤ
  pub queue_timeout_seconds : Float
  pub default_requests_per_minute : ℤ
  pub default_requests_per_day : ℤ
  pub default_tokens_per_day : ℤ
  pub max_request_body_bytes : ℤ
  pub cors_allowed_origins : Text

-- if bad: raise ValueError
abbrev pub refuse_if {ℓ} : {A : Type ℓ} → Bool → A → Option A
refuse_if bad value = if bad then none else some value

-- value < 0 and value <= 0
unfoldable pub is_negative : ℤ → Bool
is_negative (pos n) = false
is_negative (negsuc n) = true

unfoldable pub is_not_positive : ℤ → Bool
is_not_positive (pos n) = n == 0
is_not_positive (negsuc n) = true

-- limit < value
unfoldable pub is_over : ℕ → ℤ → Bool
is_over limit (pos n) = ltb limit n
is_over limit (negsuc n) = false

-- value <= 0 for a float, which no comparison with nan satisfies
unfoldable pub float_not_positive : Float → Bool
unfolding is_not_positive
float_not_positive nan = false
float_not_positive infinity = false
float_not_positive minus_infinity = true
float_not_positive (finite n) = is_not_positive n

unfoldable pub validate_port : ℤ → Option ℤ
unfolding is_not_positive is_over
validate_port value = refuse_if (is_not_positive value || is_over 65535 value) value

-- The validators of the four timeouts.
unfoldable pub validate_timeout : Float → Option Float
unfolding float_not_positive
validate_timeout value = refuse_if (float_not_positive value) value

-- The letter of ASCII that s.upper() makes of a character: the dotless i and the long s, the code
-- points 305 and 383, have one too.
unfoldable upper_letter : ℕ → ℕ
upper_letter c =
    if leb b'a' c && leb c b'z' then c - 32 else if c == 305 then 73 else if c == 383 then 83 else c

-- s.upper(). A character that it takes to several letters, or to one beyond ASCII, is kept here: no
-- level's name has what it makes of one, so a text that has one is refused all the same.
unfoldable pub upper : Text → Text
unfolding upper_letter
upper [] = []
upper (c ∷ s) = upper_letter c ∷ upper s

-- value in {...}
unfoldable pub one_of : List Text → Text → Bool
one_of [] s = false
one_of (t ∷ ts) s = if text_eq t s then true else one_of ts s

abbrev pub log_levels : List Text
log_levels = codes "DEBUG" ∷ codes "INFO" ∷ codes "WARNING" ∷ codes "ERROR" ∷ codes "CRITICAL" ∷ []

unfoldable pub validate_log_level : Text → Option Text
unfolding upper
validate_log_level value =
    let normalized = upper (strip value) in
    refuse_if (not (one_of log_levels normalized)) normalized

unfoldable pub validate_max_active : ℤ → Option ℤ
unfolding is_not_positive
validate_max_active value = refuse_if (is_not_positive value) value

-- The validators of the size of the queue and of the three default limits.
unfoldable pub validate_not_negative : ℤ → Option ℤ
unfolding is_negative
validate_not_negative value = refuse_if (is_negative value) value

abbrev pub max_body : ℕ
max_body = 50 * 1024 * 1024

unfoldable pub validate_max_body : ℤ → Option ℤ
unfolding is_not_positive is_over
validate_max_body value = refuse_if (is_not_positive value || is_over max_body value) value

abbrev pub star : Text
star = codes "*"

abbrev pub has_scheme : Text → Bool
has_scheme part = starts_with (codes "http://") part || starts_with (codes "https://") part

-- What the loop over the parts raises for.
unfoldable pub bad_part : Text → Bool
bad_part part =
    if is_empty part then false else if text_eq part star then true else not (has_scheme part)

unfoldable pub any_bad : List Text → Bool
unfolding bad_part
any_bad [] = false
any_bad (part ∷ parts) = bad_part (strip part) || any_bad parts

unfoldable pub validate_cors : Text → Option Text
unfolding any_bad
validate_cors value =
    if text_eq (strip value) star
    then none
    else if is_empty (strip value)
    then some value
    else refuse_if (any_bad (split b',' value)) value

-- The parts that are left after stripping.
unfoldable pub origins : List Text → List Text
origins [] = []
origins (part ∷ parts) =
    let rest = origins parts in if is_empty (strip part) then rest else strip part ∷ rest

unfoldable pub origins_in : Text → List Text
unfolding origins
origins_in value = if is_empty (strip value) then [] else origins (split b',' value)

-- Settings.cors_origins_list
unfoldable pub cors_origins_list : Settings → List Text
unfolding origins_in
cors_origins_list s = origins_in s.cors_allowed_origins

-- Every validator runs, and one that raises is enough to refuse the settings.
infixr 5 ◌<&>◌
abbrev pub ◌<&>◌ : {A B : Type 0} → Option A → Option B → Option (A × B)
x <&> y = elim x [ none ↦ none | some a ↦ elim y [ none ↦ none | some b ↦ some (a, b) ] ]

abbrev pub Serving : Type 0
Serving = ℤ × Text

abbrev pub Timeouts : Type 0
Timeouts = (Float × Float) × (Float × Float)

abbrev pub Sizes : Type 0
Sizes = ℤ × ℤ

abbrev pub Limits : Type 0
Limits = ℤ × (ℤ × ℤ)

abbrev pub Remote : Type 0
Remote = ℤ × Text

unfoldable pub validate_serving : Settings → Option Serving
unfolding validate_port validate_log_level
validate_serving s = validate_port s.port <&> validate_log_level s.log_level

unfoldable pub validate_timeouts : Settings → Option Timeouts
unfolding validate_timeout
validate_timeouts s =
    (validate_timeout s.backend_timeout_seconds
      <&> validate_timeout s.backend_connect_timeout_seconds)
    <&> (validate_timeout s.backend_health_timeout_seconds
        <&> validate_timeout s.queue_timeout_seconds)

unfoldable pub validate_sizes : Settings → Option Sizes
unfolding validate_max_active validate_not_negative
validate_sizes s =
    validate_max_active s.max_active_requests <&> validate_not_negative s.max_queue_size

unfoldable pub validate_limits : Settings → Option Limits
unfolding validate_not_negative
validate_limits s =
    validate_not_negative s.default_requests_per_minute
    <&> (validate_not_negative s.default_requests_per_day
        <&> validate_not_negative s.default_tokens_per_day)

unfoldable pub validate_remote : Settings → Option Remote
unfolding validate_max_body validate_cors
validate_remote s =
    validate_max_body s.max_request_body_bytes <&> validate_cors s.cors_allowed_origins

unfoldable pub build : Serving → Timeouts → Sizes → Limits → Remote → Settings
build serving timeouts sizes limits remote = record {
  port = serving.0;
  log_level = serving.1;
  backend_timeout_seconds = timeouts.0.0;
  backend_connect_timeout_seconds = timeouts.0.1;
  backend_health_timeout_seconds = timeouts.1.0;
  max_active_requests = sizes.0;
  max_queue_size = sizes.1;
  queue_timeout_seconds = timeouts.1.1;
  default_requests_per_minute = limits.0;
  default_requests_per_day = limits.1.0;
  default_tokens_per_day = limits.1.1;
  max_request_body_bytes = remote.0;
  cors_allowed_origins = remote.1;
}

-- Settings(...), for values of the right types; `none` is a ValidationError.
unfoldable pub validate : Settings → Option Settings
unfolding validate_serving validate_timeouts validate_sizes validate_limits validate_remote build
validate s =
    elim (validate_serving s
      <&> (validate_timeouts s
          <&> (validate_sizes s <&> (validate_limits s <&> validate_remote s)))) [
            | none ↦ none
            | some (serving, (timeouts, (sizes, (limits, remote)))) ↦
                some (build serving timeouts sizes limits remote)
          ]
