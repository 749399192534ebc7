-- ===== src/Chat/Response.antt =====
-- app/api/chat.py: the answer that `_non_streaming_completion` makes of a backend's response, in the
-- schemas of app/api/chat_schemas.py. What pydantic takes for an `int` is an argument, as is what the
-- database stores of a number of tokens.
pub mod Shape
mod Tests
use syn.Common.{
  ℕ, String, Bool, true, false, Option, none, some, List, [], ◌∷◌, str_eq, if◌then◌else◌,
}
use syn.Common.Int.{ℤ}
use syn.Common.Json.{Json, null, num, str, truthy}
use syn.Errors.{Exn, other, Result, ok, err, ◌>>=◌}
use syn.Schemas.{text_field, optional_str, literal}
use syn.Usage.{UsageRecord, ApiKey, Client}
use syn.LlamaCpp.{or_json}
use syn.LlamaCpp.Completion.{Choice, ChatCompletionUsage, ChatCompletionResponse}
use syn.Chat.{Job, model_of, Attempt, non_streaming_completion}

pub record ApiChoice : Type 0 where
  pub index : ℕ
  pub content : String
  pub finish_reason : Option String

pub record ApiUsage : Type 0 where
  pub prompt_tokens : ℤ
  pub completion_tokens : ℤ
  pub total_tokens : ℤ

-- The role of a choice and the object's name are the only ones that the schemas allow.
pub record ApiResponse : Type 0 where
  pub id : String
  pub created : ℤ
  pub model : String
  pub choices : List ApiChoice
  pub usage : ApiUsage
  pub system_fingerprint : Option String

unfoldable pub api_choice : Choice → Result ApiChoice
api_choice c = do
  role ← literal "assistant" c.role
  content ← text_field c.content
  finish_reason ← optional_str c.finish_reason
  ok (record { index = c.index; content = content; finish_reason = finish_reason })

unfoldable pub api_choices : List Choice → Result (List ApiChoice)
unfolding api_choice
api_choices [] = ok []
api_choices (c ∷ cs) = do choice ← api_choice c; rest ← api_choices cs; ok (choice ∷ rest)

module _ (int_field : Json → Result ℤ) where
  unfoldable pub api_usage : ChatCompletionUsage → Result ApiUsage
  api_usage u = do
    prompt ← int_field u.prompt_tokens
    completion ← int_field u.completion_tokens
    total ← int_field u.total_tokens
    ok (record { prompt_tokens = prompt; completion_tokens = completion; total_tokens = total })

  -- ChatCompletionResponse(...), with the identifier and the time that stand in for absent ones
  unfoldable pub api_response :
      (fallback_id : String) (now : ℕ) (model : String)
      → ChatCompletionResponse
      → Result ApiResponse
  unfolding api_choices api_usage
  api_response fallback_id now model r = do
    id ← text_field (or_json r.id (str fallback_id))
    name ← literal "chat.completion" r.object_name
    created ← int_field (or_json r.created (num now))
    choices ← api_choices r.choices
    usage ← api_usage r.usage
    system_fingerprint ← optional_str r.system_fingerprint
    ok (record {
      id = id;
      created = created;
      model = model;
      choices = choices;
      usage = usage;
      system_fingerprint = system_fingerprint;
    })

-- `_non_streaming_completion`: the request is recorded in the `finally`, and the answer is made of
-- the response after it.
unfoldable pub answer :
    (int_field : Json → Result ℤ) (bind : Json → Result (Option ℕ)) (fallback_id : String) (now : ℕ)
    → Job
    → ApiKey
    → Client
    → List UsageRecord
    → Attempt
    → List UsageRecord × Result ApiResponse
unfolding api_response
answer int_field bind fallback_id now j key client table attempt =
    let (recorded, response) = non_streaming_completion bind j key client table attempt in
    (recorded, response >>= λ r. api_response int_field fallback_id now (model_of j) r)
