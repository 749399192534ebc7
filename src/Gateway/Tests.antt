-- ===== src/Gateway/Tests.antt =====
-- Requests through the gateway, and the theorems at them.
use syn.Common.{◌≤◌, ◌<◌, ◌≡◌, refl, ◌⊎◌, Option, none, some, [], ◌∷◌, arith, length}
use syn.Common.Int.{pos, negsuc}
use syn.Common.Dict
use syn.Common.Text.{Text, codes, starts_with, is_space, strip, drop_while, rstrip}
use syn.Common.Json.{str}
use syn.Common.Decimal.{int_of, str_of, digits, max_digits}
use syn.Errors.{make, not_found_error, model_not_found}
use syn.Gateway.{
  Response, Answer, answered, raises, thrown, HttpRequest, openai_error, internal_error,
  assigned_id, serve, error_type,
}
use syn.Gateway.Limits.{serve-content_length}

abbrev uuid : Text
uuid = codes "0b6e6a5e-6d1f-4c38-9f0c-2f3a"

abbrev post : HttpRequest
post = record {
  path = codes "/v1/chat/completions";
  request_id_header = some (codes " req-7 ");
  content_length = some (str_of 2048);
}

abbrev echo : Option Text → Answer
echo context = answered 200 [] (str "ok")

abbrev missing : Option Text → Answer
missing context = raises (
    thrown (record {
      error = make model_not_found none none (some "model");
      detail = codes "model 'x' not found";
      request_id = none;
    }))

numbers : (int_of (codes " +1_000 ") ≡ some (pos 1000)) × (int_of (codes "-3") ≡ some (negsuc 2))
unfolding int_of strip drop_while rstrip is_space
numbers = (refl, refl)

no_numbers :
    (int_of (codes "1__0") ≡ none) × (int_of (codes "") ≡ none) × (int_of (codes "4k") ≡ none)
unfolding int_of strip drop_while rstrip is_space
no_numbers = (refl, refl, refl)

printed : str_of 1048576 ≡ codes "1048576"
unfolding str_of digits
printed = refl

kept_id : assigned_id (some (codes " req-7 ")) uuid ≡ codes "req-7"
unfolding assigned_id strip drop_while rstrip is_space
kept_id = refl

replaced_id : assigned_id (some (codes "two words")) uuid ≡ uuid
unfolding assigned_id strip drop_while rstrip is_space
replaced_id = refl

refused :
    (serve 1024 uuid post echo none).1
    ≡ some (record {
      status = 413;
      headers = ("X-Request-ID", codes "req-7") ∷ [];
      body = openai_error (record {
        message = codes "request body too large: 2048 bytes exceeds limit 1024";
        kind = "invalid_request_error";
        param = none;
        code = "request_body_too_large";
        request_id = some (codes "req-7");
      });
    })
unfolding serve str_of digits int_of strip drop_while rstrip is_space starts_with make Dict.put
refused = refl

-- The handler of the program's errors would call this status a server error.
refusal_type : error_type 413 ≡ "server_error"
unfolding error_type
refusal_type = refl

missing_model :
    (serve 4096 uuid post missing none).1
    ≡ some (record {
      status = 404;
      headers = ("X-Request-ID", codes "req-7") ∷ [];
      body = openai_error (record {
        message = codes "model 'x' not found";
        kind = "invalid_request_error";
        param = some (codes "model");
        code = "model_not_found";
        request_id = some (codes "req-7");
      });
    })
unfolding serve str_of digits int_of strip drop_while rstrip is_space starts_with make Dict.put
missing_model = refl

-- A resource that is missing outside of /v1 is answered without the request's identifier.
missing_user :
    (serve 4096 uuid
      (record post { path = codes "/admin/users/7"; content_length = none })
      (λ context. raises (
        thrown (record {
          error = make not_found_error (some "user_not_found") none none;
          detail = codes "user '7' not found";
          request_id = none;
        })))
      none).1
    ≡ some (record {
      status = 404;
      headers = ("X-Request-ID", codes "req-7") ∷ [];
      body = internal_error (record {
        code = "user_not_found";
        detail = codes "user '7' not found";
        param = none;
        request_id = none;
      });
    })
unfolding serve strip drop_while rstrip is_space starts_with make Dict.put
missing_user = refl

few_digits : length (str_of 2048) ≤ max_digits
unfolding str_of digits
few_digits = omega arith

serve-content_length_example :
    ((1024 < 2048)
      × (r : Response) × (r.status ≡ 413)
      × ((app : Option Text → Answer) → serve 1024 uuid post app none ≡ (none, some r)))
    ⊎ ((2048 ≤ 1024)
        × ((app : Option Text → Answer)
            → serve 1024 uuid post app none
              ≡ serve 1024 uuid (record post { content_length = none }) app none))
serve-content_length_example = serve-content_length 1024 2048 uuid post none refl few_digits
