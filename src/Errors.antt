-- ===== src/Errors.antt =====
-- app/core/errors.py: the exception classes, their codes and statuses, and what a raise carries.
-- The human-readable `detail` text and the tracing `request_id` are left out of the model.
use syn.Common.{
  ℕ, String, ◌≡◌, refl, Bool, true, false, Option, none, some, str_eq, ◌==◌, if◌then◌else◌,
}

-- The exception classes, `SynError` first.
pub data ErrorClass : Type 0 where
  syn_error configuration_error validation_error not_found_error : ErrorClass
  authentication_error invalid_api_key revoked_api_key expired_api_key : ErrorClass
  model_forbidden admin_auth_error permission_error : ErrorClass
  backend_unavailable backend_timeout backend_invalid_response backend_protocol_error : ErrorClass
  queue_full queue_timeout : ErrorClass
  rate_limit_exceeded request_quota_exceeded token_quota_exceeded : ErrorClass
  request_body_too_large model_not_found model_disabled : ErrorClass
  backend_not_configured routing_config_error : ErrorClass

-- The class attribute `code`.
unfoldable pub class_code : ErrorClass → String
class_code syn_error = "syn_error"
class_code configuration_error = "configuration_error"
class_code validation_error = "validation_error"
class_code not_found_error = "not_found"
class_code authentication_error = "authentication_required"
class_code invalid_api_key = "invalid_api_key"
class_code revoked_api_key = "invalid_api_key"
class_code expired_api_key = "expired_api_key"
class_code model_forbidden = "model_forbidden"
class_code admin_auth_error = "admin_auth_required"
class_code permission_error = "permission_denied"
class_code backend_unavailable = "backend_unavailable"
class_code backend_timeout = "backend_timeout"
class_code backend_invalid_response = "backend_invalid_response"
class_code backend_protocol_error = "backend_protocol_error"
class_code queue_full = "queue_full"
class_code queue_timeout = "queue_timeout"
class_code rate_limit_exceeded = "rate_limit_exceeded"
class_code request_quota_exceeded = "request_quota_exceeded"
class_code token_quota_exceeded = "token_quota_exceeded"
class_code request_body_too_large = "request_body_too_large"
class_code model_not_found = "model_not_found"
class_code model_disabled = "model_disabled"
class_code backend_not_configured = "backend_not_configured"
class_code routing_config_error = "routing_config_invalid"

-- The class attribute `http_status`.
unfoldable pub class_status : ErrorClass → ℕ
class_status syn_error = 500
class_status configuration_error = 500
class_status validation_error = 400
class_status not_found_error = 404
class_status authentication_error = 401
class_status invalid_api_key = 401
class_status revoked_api_key = 401
class_status expired_api_key = 401
class_status model_forbidden = 403
class_status admin_auth_error = 401
class_status permission_error = 403
class_status backend_unavailable = 502
class_status backend_timeout = 504
class_status backend_invalid_response = 502
class_status backend_protocol_error = 502
class_status queue_full = 429
class_status queue_timeout = 503
class_status rate_limit_exceeded = 429
class_status request_quota_exceeded = 429
class_status token_quota_exceeded = 429
class_status request_body_too_large = 413
class_status model_not_found = 404
class_status model_disabled = 404
class_status backend_not_configured = 502
class_status routing_config_error = 500

-- isinstance(e, BackendUnavailableError): the class itself and its three subclasses.
unfoldable pub is_backend_unavailable : ErrorClass → Bool
is_backend_unavailable backend_unavailable = true
is_backend_unavailable backend_timeout = true
is_backend_unavailable backend_invalid_response = true
is_backend_unavailable backend_protocol_error = true
is_backend_unavailable _ = false

pub record SynError : Type 0 where
  pub cls : ErrorClass
  pub code : String
  pub http_status : ℕ
  pub param : Option String

-- `code or cls.code`: an absent or an empty code is the class's.
or_code : Option String → String → String
or_code none d = d
or_code (some s) d = if str_eq s "" then d else s

-- `http_status or cls.http_status`: an absent or a zero status is the class's.
or_status : Option ℕ → ℕ → ℕ
or_status none d = d
or_status (some n) d = if n == 0 then d else n

-- SynError.__init__
unfoldable pub make : ErrorClass → Option String → Option ℕ → Option String → SynError
unfolding or_code or_status class_code class_status
make c code status param = record {
  cls = c;
  code = or_code code (class_code c);
  http_status = or_status status (class_status c);
  param = param;
}

-- A raise with a code alone.
abbrev pub raised : ErrorClass → String → SynError
raised c code = make c (some code) none none

-- What a handler may raise: an error of the hierarchy, or another Python exception.
pub data Exn : Type 0 where
  gateway : SynError → Exn
  other : Exn

pub data Result {ℓ} (A : Type ℓ) : Type ℓ where
  ok : A → Result A
  err : Exn → Result A

-- The first exception ends a chain of steps.
infixl 5 ◌>>=◌
abbrev pub ◌>>=◌ {ℓ κ} : {A : Type ℓ} {B : Type κ} → Result A → (A → Result B) → Result B
◌>>=◌ step next = elim step [ ok value ↦ next value | err thrown ↦ err thrown ]

infixl 5 ◌>>◌
abbrev pub ◌>>◌ {ℓ κ} : {A : Type ℓ} {B : Type κ} → Result A → Result B → Result B
◌>>◌ step rest = elim step [ ok value ↦ rest | err thrown ↦ err thrown ]

-- if bad: raise e
abbrev pub reject_if : Bool → SynError → Result (Unit {0})
reject_if true e = err (gateway e)
reject_if false e = ok tt

-- A chain that has succeeded has a first step that has: a proof goes on from there.
pub >>=-cases {ℓ κ μ} :
    {A : Type ℓ} {B : Type κ} {C : Type μ} (step : Result A) (next : A → Result B) {last : B}
    → (step >>= next) ≡ ok last
    → ((value : A) → step ≡ ok value → next value ≡ ok last → C)
    → C
>>=-cases (ok value) next done use_value = use_value value refl done
>>=-cases (err thrown) next done use_value = absurd (cc)

pub >>-cases {ℓ κ μ} :
    {A : Type ℓ} {B : Type κ} {C : Type μ} (step : Result A) (rest : Result B) {last : B}
    → (step >> rest) ≡ ok last
    → ((value : A) → step ≡ ok value → rest ≡ ok last → C)
    → C
>>-cases (ok value) rest done use_value = use_value value refl done
>>-cases (err thrown) rest done use_value = absurd (cc)
