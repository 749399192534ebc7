-- ===== src/LlamaCpp/Completion.antt =====
-- The chat completion of app/backends/llama_cpp.py, with the request of app/schemas/chat.py that it
-- forwards and the response that it returns. A response holds what the server sent, whose types
-- nothing checks.
pub mod Outcomes
use syn.Common.{
  ℕ, suc, ◌+◌, String, Bool, true, false, Option, none, some, List, [], ◌∷◌, str_eq, if◌then◌else◌,
}
use syn.Common.Json.{
  Json, Items, Fields, null, bool, num, decimal, str, arr, obj, nil, cons, end, field, truthy,
}
use syn.Errors.{Exn, other, Result, ok, err, ◌>>=◌}
use syn.LlamaCpp.{Reply, body_of, get_or, or_json}

pub record ChatMessage : Type 0 where
  pub role : String
  pub content : String

-- A float is the number that JSON writes for it.
pub record ChatCompletionRequest : Type 0 where
  pub model : String
  pub messages : List ChatMessage
  pub temperature : Option Json
  pub top_p : Option Json
  pub max_tokens : Option ℕ
  pub stop : Option (List String)

message_items : List ChatMessage → Items
message_items [] = nil
message_items (m ∷ ms) =
    cons (obj (field "role" (str m.role) (field "content" (str m.content) end))) (message_items ms)

text_items : List String → Items
text_items [] = nil
text_items (s ∷ ss) = cons (str s) (text_items ss)

-- if value is not None: payload[key] = value
unfoldable pub with_field {ℓ} : {A : Type ℓ} → String → (A → Json) → Option A → Fields → Fields
with_field k write none d = d
with_field k write (some v) d = field k (write v) d

-- The payload of a request to the server, streaming or not.
unfoldable pub payload_of : Bool → ChatCompletionRequest → Fields
unfolding message_items text_items with_field
payload_of stream r = field "model" (str r.model) (
    field "messages" (arr (message_items r.messages)) (
      field "stream" (bool stream) (
        with_field "temperature" (λ v. v) r.temperature
          (with_field "top_p" (λ v. v) r.top_p
            (with_field "max_tokens" (λ n. num n) r.max_tokens
              (with_field "stop" (λ ss. arr (text_items ss)) r.stop end))))))

pub record Choice : Type 0 where
  pub index : ℕ
  pub role : Json
  pub content : Json
  pub finish_reason : Json

pub record ChatCompletionUsage : Type 0 where
  pub prompt_tokens : Json
  pub completion_tokens : Json
  pub total_tokens : Json

pub record ChatCompletionResponse : Type 0 where
  pub id : Json
  pub object_name : Json
  pub created : Json
  pub model : Json
  pub choices : List Choice
  pub usage : ChatCompletionUsage
  pub system_fingerprint : Json

-- v.get, which only a dict has: others raise AttributeError
unfoldable pub as_dict : Json → Result Fields
as_dict (obj d) = ok d
as_dict null = err other
as_dict (bool b) = err other
as_dict (num n) = err other
as_dict (decimal s) = err other
as_dict (str s) = err other
as_dict (arr items) = err other

-- The body of the loop over the choices.
unfoldable pub choice_of : ℕ → Json → Result Choice
unfolding as_dict
choice_of idx v = do
  choice ← as_dict v
  msg_data ← as_dict (get_or choice "message" (obj end))
  ok (record {
    index = idx;
    role = get_or msg_data "role" (str "assistant");
    content = get_or msg_data "content" (str "");
    finish_reason = get_or choice "finish_reason" null;
  })

-- The loop, from an index.
unfoldable pub choices_from : ℕ → Items → Result (List Choice)
unfolding choice_of
choices_from idx nil = ok []
choices_from idx (cons v items) = do
  choice ← choice_of idx v
  rest ← choices_from (suc idx) items
  ok (choice ∷ rest)

-- enumerate(v): a dict is iterated by its keys and a text by its characters, which are texts without
-- `get`; what cannot be iterated raises TypeError
unfoldable pub choices_of : Json → Result (List Choice)
unfolding choices_from
choices_of (arr items) = choices_from 0 items
choices_of (obj end) = ok []
choices_of (obj (field k v d)) = err other
choices_of (str s) = if str_eq s "" then ok [] else err other
choices_of null = err other
choices_of (bool b) = err other
choices_of (num n) = err other
choices_of (decimal s) = err other

unfoldable pub usage_of : Json → Result ChatCompletionUsage
unfolding as_dict or_json
usage_of v = do
  usage_data ← as_dict (or_json v (obj end))
  ok (record {
    prompt_tokens = get_or usage_data "prompt_tokens" (num 0);
    completion_tokens = get_or usage_data "completion_tokens" (num 0);
    total_tokens = get_or usage_data "total_tokens" (num 0);
  })

-- The normalisation of the decoded body.
unfoldable pub response_of : ChatCompletionRequest → Json → Result ChatCompletionResponse
unfolding as_dict choices_of usage_of
response_of r body = do
  d ← as_dict body
  choices ← choices_of (get_or d "choices" (arr nil))
  usage ← usage_of (get_or d "usage" null)
  ok (record {
    id = get_or d "id" (str "");
    object_name = get_or d "object" (str "chat.completion");
    created = get_or d "created" (num 0);
    model = get_or d "model" (str r.model);
    choices = choices;
    usage = usage;
    system_fingerprint = get_or d "system_fingerprint" null;
  })

-- LlamaCppBackend.chat_completion, from the server as a function of the payload
unfoldable pub chat_completion :
    (Fields → Reply) → ChatCompletionRequest → Result ChatCompletionResponse
unfolding payload_of response_of
chat_completion post r = do body ← body_of (post (payload_of false r)); response_of r body
