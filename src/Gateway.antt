-- ===== src/Gateway.antt =====
-- app/core/request_id.py, app/core/request_size.py and the exception handlers of app/main.py: what
-- happens to a request before a route and after it. The last middleware that is added is the
-- outermost, and the handlers stand inside both. No CORS origins are configured.
pub mod Answers
pub mod Limits
mod Tests
use syn.Common.{
  ℕ, ◌+◌, String, Bool, true, false, ◌||◌, not, Option, none, some, List, [], ◌∷◌, ◌++◌, map, ◌==◌,
  ltb, str_eq, is_empty, length, if◌then◌else◌,
}
use syn.Common.Int.{ℤ, pos, negsuc}
use syn.Common.Dict.{Dict}
use syn.Common.Dict
use syn.Common.Json.{Json}
use syn.Common.Text.{Text, codes, is_space, strip, starts_with, join}
use syn.Common.Decimal.{int_of, str_of}
use syn.Errors.{ErrorClass, not_found_error, request_body_too_large, SynError, make}

-- A SynError as it is raised, with its text and its own request id.
pub record Thrown : Type 0 where
  pub error : SynError
  pub detail : Text
  pub request_id : Option Text

-- An entry of RequestValidationError.errors(): the parts of its place as texts, and its message.
pub record Invalid : Type 0 where
  pub loc : List Text
  pub msg : Text

pub data Raised : Type 0 where
  thrown : Thrown → Raised
  invalid_request : List Invalid → Raised
  crash : Raised

-- The envelope of /v1, after OpenAI's.
pub record OpenaiError : Type 0 where
  pub message : Text
  pub kind : String
  pub param : Option Text
  pub code : String
  pub request_id : Option Text

-- The dict of SynError.to_dict; what is none is not in it, and a request id may be in it as null.
pub record InternalError : Type 0 where
  pub code : String
  pub detail : Text
  pub param : Option Text
  pub request_id : Option (Option Text)

pub data Body : Type 0 where
  openai_error : OpenaiError → Body
  internal_error : InternalError → Body
  invalid_detail : List Invalid → Option Text → Body
  content : Json → Body

pub record Response : Type 0 where
  pub status : ℕ
  pub headers : Dict Text
  pub body : Body

-- What a route answers or raises.
pub data Answer : Type 0 where
  answered : ℕ → Dict Text → Json → Answer
  raises : Raised → Answer

pub record HttpRequest : Type 0 where
  pub path : Text
  pub request_id_header : Option Text
  pub content_length : Option Text

-- Code below a middleware: from the request id of the context to a response, or to an exception that
-- no handler takes.
abbrev pub Handler : Type 0
Handler = Option Text → Option Response

unfoldable pub any_space : Text → Bool
any_space [] = false
any_space (c ∷ s) = is_space c || any_space s

unfoldable pub bounded_id : Text → Option Text
unfolding any_space
bounded_id value =
    if is_empty value || ltb 64 (length value) || any_space value then none else some value

-- _sanitize
unfoldable pub sanitize : Option Text → Option Text
unfolding bounded_id
sanitize none = none
sanitize (some value) = if is_empty value then none else bounded_id (strip value)

-- _sanitize(incoming) or str(uuid.uuid4())
unfoldable pub assigned_id : Option Text → Text → Text
unfolding sanitize
assigned_id incoming uuid = elim (sanitize incoming) [
  | none ↦ uuid
  | some value ↦ if is_empty value then uuid else value
]

abbrev pub request_id_name : String
request_id_name = "X-Request-ID"

unfoldable pub tagged : Text → Option Response → Option Response
tagged id none = none
tagged id (some r) = some (record r { headers = Dict.put r.headers request_id_name id })

-- RequestIDMiddleware.dispatch: the context variable afterwards, and the response
unfoldable pub request_id_dispatch :
    Text → HttpRequest → Handler → Option Text → Option Text × Option Response
unfolding assigned_id tagged
request_id_dispatch uuid req call_next context =
    let id = assigned_id req.request_id_header uuid in (context, tagged id (call_next (some id)))

-- if self.x: payload["x"] = self.x
abbrev when_set : Option Text → Option Text
when_set none = none
when_set (some s) = if is_empty s then none else some s

unfoldable pub param_of : Thrown → Option Text
param_of t = elim t.error.param [ none ↦ none | some p ↦ some (codes p) ]

-- SynError.to_dict
unfoldable pub to_dict : Thrown → InternalError
unfolding param_of
to_dict t = record {
  code = t.error.code;
  detail = t.detail;
  param = when_set (param_of t);
  request_id = elim (when_set t.request_id) [ none ↦ none | some id ↦ some (some id) ];
}

-- payload.setdefault("request_id", get_request_id())
unfoldable pub set_default_id : Option Text → InternalError → InternalError
set_default_id context payload = elim payload.request_id [
  | none ↦ record payload { request_id = some context }
  | some id ↦ payload
]

abbrev pub openai_prefix : Text
openai_prefix = codes "/v1/"

-- A response of the handlers has no headers of its own.
abbrev pub json_response : ℕ → Body → Response
json_response status body = record { status = status; headers = []; body = body }

-- exc.http_status in (400, 404, 422)
unfoldable pub error_type : ℕ → String
error_type status =
    if status == 400 || status == 404 || status == 422
    then "invalid_request_error"
    else "server_error"

unfoldable pub openai_of : String → Option Text → Option Text → Thrown → OpenaiError
openai_of kind param context t = record {
  message = t.detail;
  kind = kind;
  param = param;
  code = t.error.code;
  request_id = context;
}

-- syn_error_handler
unfoldable pub syn_error_handler : Option Text → Text → Thrown → Response
unfolding error_type openai_of to_dict set_default_id param_of
syn_error_handler context path t = json_response t.error.http_status (
    if starts_with openai_prefix path
    then openai_error (openai_of (error_type t.error.http_status) (param_of t) context t)
    else internal_error (set_default_id context (to_dict t)))

-- not_found_handler
unfoldable pub not_found_handler : Option Text → Text → Thrown → Response
unfolding openai_of to_dict
not_found_handler context path t = json_response 404 (
    if starts_with openai_prefix path
    then openai_error (openai_of "invalid_request_error" none context t)
    else internal_error (to_dict t))

-- What the handler of validation errors reads of the first error.
first_loc : List Invalid → Text
first_loc [] = []
first_loc (e ∷ es) = join b'.' e.loc

first_msg : List Invalid → Text
first_msg [] = codes "validation error"
first_msg (e ∷ es) = e.msg

-- validation_error_handler
unfoldable pub validation_error_handler : Option Text → Text → List Invalid → Response
unfolding first_loc first_msg
validation_error_handler context path errors =
    let loc = first_loc errors in
    json_response 422 (
      if starts_with openai_prefix path
      then openai_error (record {
        message = if is_empty loc then first_msg errors else loc ++ codes ": " ++ first_msg errors;
        kind = "invalid_request_error";
        param = if is_empty loc then none else some loc;
        code = "validation_error";
        request_id = context;
      })
      else invalid_detail errors context)

-- isinstance(e, NotFoundError)
unfoldable pub is_not_found : ErrorClass → Bool
is_not_found not_found_error = true
is_not_found _ = false

-- The handler of an exception is that of its nearest class; there is none for other exceptions.
unfoldable pub handle : Option Text → Text → Raised → Option Response
unfolding syn_error_handler not_found_handler validation_error_handler is_not_found
handle context path (thrown t) = some (
    if is_not_found t.error.cls
    then not_found_handler context path t
    else syn_error_handler context path t)
handle context path (invalid_request errors) = some (validation_error_handler context path errors)
handle context path crash = none

unfoldable pub respond : Option Text → Text → Answer → Option Response
unfolding handle
respond context path (answered status headers body) =
    some (record { status = status; headers = headers; body = content body })
respond context path (raises e) = handle context path e

-- A route with the exception handlers around it.
unfoldable pub handled : Text → (Option Text → Answer) → Handler
unfolding respond
handled path app context = respond context path (app context)

-- int(content_length), and 0 for what is no number
unfoldable pub length_of : Text → ℤ
length_of header = elim (int_of header) [ none ↦ pos 0 | some n ↦ n ]

-- length > self.settings.max_request_body_bytes
unfoldable pub exceeds : ℕ → ℤ → Bool
exceeds limit (pos n) = ltb limit n
exceeds limit (negsuc n) = false

str_of_int : ℤ → Text
str_of_int (pos n) = str_of n
str_of_int (negsuc n) = b'-' ∷ str_of (n + 1)

unfoldable pub too_large : ℕ → ℤ → Thrown
unfolding str_of_int
too_large limit n = record {
  error = make request_body_too_large (some "request_body_too_large") none none;
  detail =
      codes "request body too large: "
      ++ str_of_int n
      ++ codes " bytes exceeds limit "
      ++ str_of limit;
  request_id = none;
}

unfoldable pub refusal : Option Text → Text → Thrown → Response
unfolding openai_of to_dict set_default_id
refusal context path t = json_response 413 (
    if starts_with openai_prefix path
    then openai_error (openai_of "invalid_request_error" none context t)
    else internal_error (set_default_id context (to_dict t)))

-- RequestSizeLimitMiddleware.dispatch
unfoldable pub request_size_dispatch : ℕ → HttpRequest → Handler → Handler
unfolding length_of exceeds too_large refusal
request_size_dispatch limit req call_next context = elim req.content_length [
  | none ↦ call_next context
  | some header ↦
      let n = length_of header in
      if exceeds limit n
      then some (refusal context req.path (too_large limit n))
      else call_next context
]

-- A request through the middlewares that create_app adds, to a route.
unfoldable pub serve :
    (limit : ℕ) (uuid : Text) (req : HttpRequest) (app : Option Text → Answer)
    (context : Option Text)
    → Option Text × Option Response
unfolding request_id_dispatch request_size_dispatch handled
serve limit uuid req app context =
    request_id_dispatch uuid req (request_size_dispatch limit req (handled req.path app)) context
