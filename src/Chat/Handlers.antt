-- ===== src/Chat/Handlers.antt =====
-- Which `except` clauses of app/api/chat.py take an error of a class.
use syn.Common.{◌≡◌, refl, ◌⊎◌, inl, inr, true, false, none, some, str_eq}
use syn.Errors.{
  ErrorClass, syn_error, configuration_error, validation_error, not_found_error,
  authentication_error, invalid_api_key, revoked_api_key, expired_api_key, model_forbidden,
  admin_auth_error, permission_error, backend_unavailable, backend_timeout,
  backend_invalid_response, backend_protocol_error, queue_full, queue_timeout, rate_limit_exceeded,
  request_quota_exceeded, token_quota_exceeded, request_body_too_large, model_not_found,
  model_disabled, backend_not_configured, routing_config_error, SynError, class_code,
  is_backend_unavailable, Exn,
}
use syn.Usage.{Outcome, failed, timed_out, rejected}
use syn.Chat.{
  Locals, initial, caught, backend_handlers, queue_handlers, stream_failed, stream_handlers,
}

-- The outcome that goes with an error that the client sees.
abbrev pub outcome_of : ErrorClass → Outcome
outcome_of queue_full = rejected
outcome_of queue_timeout = timed_out
outcome_of _ = failed

-- A class that the handlers of the admission's errors let through.
abbrev pub Unqueued : ErrorClass → Type 0
Unqueued c = (outcome_of c ≡ failed) × ((e : SynError) (l : Locals) → queue_handlers c e l ≡ l)

-- A class that the handlers name, with the code that they give it.
abbrev pub Named : ErrorClass → Type 0
Named c =
    (is_backend_unavailable c ≡ true)
    × (stream_handlers c ≡ stream_failed (some (class_code c)))
    × ((e : Exn) → backend_handlers c e ≡ caught (class_code c))
    × (str_eq (class_code c) "" ≡ false)
    × Unqueued c

-- A class that no handler names.
abbrev pub Passed : ErrorClass → Type 0
Passed c =
    (is_backend_unavailable c ≡ false)
    × (stream_handlers c ≡ stream_failed none)
    × ((e : Exn) → backend_handlers c e ≡ (initial, e))
    × Unqueued c

pub handlers-cases : (c : ErrorClass) → Named c ⊎ (c ≡ queue_full) ⊎ (c ≡ queue_timeout) ⊎ Passed c
unfolding is_backend_unavailable stream_handlers backend_handlers queue_handlers class_code
handlers-cases syn_error = inr (inr (inr (refl, refl, λ e. refl, (refl, λ e l. refl))))
handlers-cases configuration_error = inr (inr (inr (refl, refl, λ e. refl, (refl, λ e l. refl))))
handlers-cases validation_error = inr (inr (inr (refl, refl, λ e. refl, (refl, λ e l. refl))))
handlers-cases not_found_error = inr (inr (inr (refl, refl, λ e. refl, (refl, λ e l. refl))))
handlers-cases authentication_error = inr (inr (inr (refl, refl, λ e. refl, (refl, λ e l. refl))))
handlers-cases invalid_api_key = inr (inr (inr (refl, refl, λ e. refl, (refl, λ e l. refl))))
handlers-cases revoked_api_key = inr (inr (inr (refl, refl, λ e. refl, (refl, λ e l. refl))))
handlers-cases expired_api_key = inr (inr (inr (refl, refl, λ e. refl, (refl, λ e l. refl))))
handlers-cases model_forbidden = inr (inr (inr (refl, refl, λ e. refl, (refl, λ e l. refl))))
handlers-cases admin_auth_error = inr (inr (inr (refl, refl, λ e. refl, (refl, λ e l. refl))))
handlers-cases permission_error = inr (inr (inr (refl, refl, λ e. refl, (refl, λ e l. refl))))
handlers-cases backend_unavailable = inl (refl, refl, λ e. refl, refl, (refl, λ e l. refl))
handlers-cases backend_timeout = inl (refl, refl, λ e. refl, refl, (refl, λ e l. refl))
handlers-cases backend_invalid_response = inl (refl, refl, λ e. refl, refl, (refl, λ e l. refl))
handlers-cases backend_protocol_error = inl (refl, refl, λ e. refl, refl, (refl, λ e l. refl))
handlers-cases queue_full = inr (inl refl)
handlers-cases queue_timeout = inr (inr (inl refl))
handlers-cases rate_limit_exceeded = inr (inr (inr (refl, refl, λ e. refl, (refl, λ e l. refl))))
handlers-cases request_quota_exceeded = inr (inr (inr (refl, refl, λ e. refl, (refl, λ e l. refl))))
handlers-cases token_quota_exceeded = inr (inr (inr (refl, refl, λ e. refl, (refl, λ e l. refl))))
handlers-cases request_body_too_large = inr (inr (inr (refl, refl, λ e. refl, (refl, λ e l. refl))))
handlers-cases model_not_found = inr (inr (inr (refl, refl, λ e. refl, (refl, λ e l. refl))))
handlers-cases model_disabled = inr (inr (inr (refl, refl, λ e. refl, (refl, λ e l. refl))))
handlers-cases backend_not_configured = inr (inr (inr (refl, refl, λ e. refl, (refl, λ e l. refl))))
handlers-cases routing_config_error = inr (inr (inr (refl, refl, λ e. refl, (refl, λ e l. refl))))
