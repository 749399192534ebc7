-- ===== src/LlamaCpp.antt =====
-- app/backends/llama_cpp.py: the adapter of a llama.cpp server. The HTTP client is not part of the
-- program: a call of it is given by its outcome. What the server sent is kept as it came, since the
-- dataclasses that hold it check no types. Timings and the texts for display are left out.
pub mod Names
pub mod Health
pub mod Completion
pub mod Stream
mod Tests
use syn.Common.{
  ℕ, String, Bool, true, false, ◌||◌, not, Option, none, some, List, [], ◌∷◌, ◌==◌, str_eq, map,
  if◌then◌else◌,
}
use syn.Common.Text.{Text, codes, has_char, split}
use syn.Common.Json.{
  Json, Items, Fields, null, bool, num, decimal, str, arr, obj, nil, cons, end, field, get_field,
  truthy,
}
use syn.Errors.{
  Exn, gateway, other, raised, Result, ok, err, backend_timeout, backend_unavailable,
  backend_protocol_error, backend_invalid_response,
}
use syn.Backend.{
  BackendCapability, health_probe, models_list, chat_completions, streaming, BackendHealthState,
  unknown, reachable, unreachable, timeout, invalid,
}

-- The classes of httpx.TransportError.
pub data TransportError : Type 0 where
  connect_timeout read_timeout write_timeout pool_timeout : TransportError
  connect_error read_error write_error close_error : TransportError
  local_protocol_error remote_protocol_error proxy_error unsupported_protocol : TransportError

-- isinstance(e, httpx.TimeoutException)
unfoldable pub is_timeout : TransportError → Bool
is_timeout connect_timeout = true
is_timeout read_timeout = true
is_timeout write_timeout = true
is_timeout pool_timeout = true
is_timeout _ = false

-- How a call of the client ends: a transport error, another exception, or a response with its status
-- and what resp.json() returns, if it returns.
pub data Reply : Type 0 where
  transport_failed : TransportError → Reply
  crashed : Reply
  answered : ℕ → Option Json → Reply

-- LlamaCppBackend.capabilities
unfoldable pub capabilities : List BackendCapability
capabilities = health_probe ∷ models_list ∷ chat_completions ∷ streaming ∷ []

-- The handlers around a call of the client, TimeoutException first.
unfoldable pub call_error : TransportError → Exn
call_error e =
    if is_timeout e
    then gateway (raised backend_timeout "backend_timeout")
    else gateway (raised backend_unavailable "backend_unavailable")

-- What a call returns: the decoded body of a response of status 200.
unfoldable pub body_of : Reply → Result Json
unfolding call_error
body_of (transport_failed e) = err (call_error e)
body_of crashed = err other
body_of (answered status body) =
    if not (status == 200)
    then err (gateway (raised backend_protocol_error "backend_protocol_error"))
    else (elim body [
      | none ↦ err (gateway (raised backend_invalid_response "backend_invalid_response"))
      | some payload ↦ ok payload
    ])

-- d.get(k, v)
unfoldable pub get_or : Fields → String → Json → Json
get_or d k v = elim (get_field d k) [ none ↦ v | some x ↦ x ]

-- v or w
unfoldable pub or_json : Json → Json → Json
or_json v w = if truthy v then v else w

-- BackendModelInfo, as the adapter fills it.
pub record DiscoveredModel : Type 0 where
  pub id : Text
  pub object_name : Json
  pub owned_by : Json
  pub created : Json

-- s.replace("\\", "/")
unfoldable pub forward_slashes : Text → Text
forward_slashes [] = []
forward_slashes (c ∷ s) = (if c == b'\\' then b'/' else c) ∷ forward_slashes s

-- The last of some pieces.
unfoldable pub last_piece : List Text → Text
last_piece [] = []
last_piece (x ∷ []) = x
last_piece (x ∷ y ∷ xs) = last_piece (y ∷ xs)

-- raw or None
unfoldable pub text_or_none : Text → Option Text
text_or_none [] = none
text_or_none (c ∷ s) = some (c ∷ s)

-- LlamaCppBackend._sanitize_model_name, of a text
unfoldable pub sanitize_model_name : Text → Option Text
unfolding forward_slashes last_piece text_or_none
sanitize_model_name [] = none
sanitize_model_name (c ∷ s) = text_or_none (
    if has_char b'\\' (c ∷ s) || has_char b'/' (c ∷ s)
    then last_piece (split b'/' (forward_slashes (c ∷ s)))
    else c ∷ s)

-- What runtime_model_info makes of the models: the shown name of the first and its time of creation.
-- Without a model, and when the discovery raises, the answer is empty.
unfoldable pub info_of : Result (List DiscoveredModel) → Option (Option Text × Json)
info_of (ok (m ∷ ms)) = some (sanitize_model_name m.id, m.created)
info_of (ok []) = none
info_of (err e) = none

-- info.get("runtime_model") if info else None
unfoldable pub runtime_model : Option (Option Text × Json) → Option Text
runtime_model none = none
runtime_model (some info) = info.0

-- `text` is Python's str on the values that json.loads returns.
module _ (text : Json → Text) where
  discovered : Fields → Json → DiscoveredModel
  discovered d id = record {
    id = text id;
    object_name = or_json (get_or d "object" null) (str "model");
    owned_by = or_json (get_or d "owned_by" null) (str "llamacpp");
    created = get_or d "created" null;
  }

  -- The loop over the entries of `data`.
  unfoldable pub model_items : Items → List DiscoveredModel
  unfolding discovered
  model_items nil = []
  model_items (cons (obj d) items) =
      let rest = model_items items in
      let id = get_or d "id" null in if truthy id then discovered d id ∷ rest else rest
  model_items (cons null items) = model_items items
  model_items (cons (bool b) items) = model_items items
  model_items (cons (num n) items) = model_items items
  model_items (cons (decimal s) items) = model_items items
  model_items (cons (str s) items) = model_items items
  model_items (cons (arr xs) items) = model_items items

  abbrev no_data_array : Result (List DiscoveredModel)
  no_data_array = err (gateway (raised backend_invalid_response "backend_invalid_response"))

  models_of : Option Json → Result (List DiscoveredModel)
  models_of (some (arr items)) = ok (model_items items)
  models_of _ = no_data_array

  models_in : Json → Result (List DiscoveredModel)
  unfolding models_of
  models_in (obj d) = models_of (get_field d "data")
  models_in _ = no_data_array

  -- LlamaCppBackend.models
  unfoldable pub models : Reply → Result (List DiscoveredModel)
  unfolding models_in
  models reply = elim (body_of reply) [ err e ↦ err e | ok payload ↦ models_in payload ]

  -- LlamaCppBackend.runtime_model_info
  unfoldable pub runtime_model_info : Reply → Option (Option Text × Json)
  unfolding info_of
  runtime_model_info reply = info_of (models reply)
