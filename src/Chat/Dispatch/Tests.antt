-- ===== src/Chat/Dispatch/Tests.antt =====
-- Runs of the dispatch of a chat request, and an instance of its theorem.
use syn.Common.{◌≡◌, refl, true, false, none, some, [], ◌∷◌}
use syn.Common.Int.{pos}
use syn.Common.Dict
use syn.Common.Dict.{elem}
use syn.Common.Text.{codes}
use syn.Common.Json.{null}
use syn.Errors.{ok, err, gateway, make, syn_error}
use syn.Backend.{InferenceBackend, chat_completions, models_list, reachable, has_capability}
use syn.Policy.{Limits, resolve_policy}
use syn.Principal.{AuthenticatedPrincipal, can_use_model}
use syn.RateLimit.{init, check}
use syn.Routing.Router.{configured, reject}
use syn.Usage.{
  UsageService, ApiKey, Client, Readings, precheck, effective_policy, count_requests_today,
  sum_tokens_today,
}
use syn.LlamaCpp.Completion.{ChatCompletionRequest}
use syn.Chat.Dispatch.{
  AppState, Dispatched, prechecked, get_router, dispatch_if, check_capability, check_stream,
  available_models, validate_request, create_chat_completion,
}
use syn.Chat.Dispatch.Permitted.{IsPermitted, create_chat_completion-IsPermitted}

abbrev service : UsageService
service = record {
  rate_limiter = init 10 60;
  defaults = record {
    requests_per_minute = pos 60;
    requests_per_day = pos 2;
    tokens_per_day = pos 100;
  };
  day = 1000;
}

abbrev local_backend : InferenceBackend
local_backend = record {
  name = "llama_cpp";
  base_url = [];
  capabilities = models_list ∷ chat_completions ∷ [];
  health = ok (record {
    state = reachable;
    is_reachable = true;
    configured = true;
    server_version = null;
    model = none;
  });
  models =
      ok (record { id = "m"; object_name = "model"; owned_by = "llamacpp"; created = none } ∷ []);
}

abbrev app : AppState
app = record { usage_service = some service; router = none; backend = some local_backend }

abbrev no_limits : Limits
no_limits = record { requests_per_minute = none; requests_per_day = none; tokens_per_day = none }

abbrev key : ApiKey
key = record { id = "k"; limits = no_limits }

abbrev client : Client
client = record { id = "c"; user_id = "u"; limits = no_limits }

abbrev principal : AuthenticatedPrincipal
principal = record {
  user_id = "u";
  user_name = codes "user";
  client_id = "c";
  client_name = codes "client";
  api_key_id = "k";
  api_key_prefix = codes "syn_live_abcdefgh";
  allowed_models = some ("m" ∷ []);
}

abbrev request : ChatCompletionRequest
request = record {
  model = "m";
  messages = [];
  temperature = none;
  top_p = none;
  max_tokens = none;
  stop = none;
}

abbrev readings : Readings
readings = record { limiter = 15000; requests = 1500; tokens = 1500 }

abbrev handed_on : Dispatched
handed_on = record {
  backend = local_backend;
  request = request;
  stream = false;
  canonical_model = "m";
  backend_id = none;
}

is_handed_on :
    (create_chat_completion app readings [] key client principal request false).1 ≡ ok handed_on
unfolding create_chat_completion prechecked precheck effective_policy count_requests_today
    sum_tokens_today init check resolve_policy Dict.get configured get_router dispatch_if
    check_capability available_models validate_request has_capability elem reject can_use_model
is_handed_on = refl

-- A backend that does not stream refuses streams.
no_streams :
    (create_chat_completion app readings [] key client principal request true).1
    ≡ err (gateway (make syn_error (some "stream_not_supported") (some 400) (some "stream")))
unfolding create_chat_completion prechecked precheck effective_policy count_requests_today
    sum_tokens_today init check resolve_policy Dict.get configured get_router dispatch_if
    check_capability check_stream available_models validate_request has_capability elem reject
    can_use_model
no_streams = refl

create_chat_completion-IsPermitted_example :
    ((prechecked app.usage_service readings [] key client).1 ≡ ok tt)
    × IsPermitted principal handed_on
create_chat_completion-IsPermitted_example =
    create_chat_completion-IsPermitted app readings [] key client principal request false handed_on
      is_handed_on
