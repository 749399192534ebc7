-- ===== src/Chat/Response/Tests.antt =====
-- A response that is answered and one that is not, both recorded as completed.
use syn.Common.{◌≡◌, refl, ◌↔◌, none, some, [], ◌∷◌}
use syn.Common.Int.{pos}
use syn.Common.Json.{Json, null, num, str, truthy}
use syn.Errors.{other, ok, err}
use syn.Schemas.{text_field, literal, optional_str}
use syn.LlamaCpp.{or_json}
use syn.LlamaCpp.Completion.{ChatCompletionResponse}
use syn.Chat.{answered}
use syn.Chat.Recording.{KeepsUsage}
use syn.Chat.Tests.{job, key, client, int_field, bind}
use syn.Chat.Response.{ApiResponse, answer, api_response}
use syn.Chat.Response.Shape.{IsShaped, answer-IsShaped}

abbrev response : Json → ChatCompletionResponse
response content = record {
  id = str "chatcmpl-1";
  object_name = str "chat.completion";
  created = num 7;
  model = str "tiny.gguf";
  choices =
      record { index = 0; role = str "assistant"; content = content; finish_reason = str "stop" }
      ∷ [];
  usage = record { prompt_tokens = num 3; completion_tokens = num 4; total_tokens = num 7 };
  system_fingerprint = null;
}

texts :
    api_response int_field "chatcmpl-0" 9 "tiny" (response (str "Hi"))
    ≡ ok (record {
      id = "chatcmpl-1";
      created = pos 7;
      model = "tiny";
      choices = record { index = 0; content = "Hi"; finish_reason = some "stop" } ∷ [];
      usage = record { prompt_tokens = pos 3; completion_tokens = pos 4; total_tokens = pos 7 };
      system_fingerprint = none;
    })
unfolding api_response or_json truthy text_field literal optional_str
texts = refl

-- A choice without a text, as for a call of a tool.
no_text : api_response int_field "chatcmpl-0" 9 "tiny" (response null) ≡ err other
unfolding api_response or_json truthy text_field literal optional_str
no_text = refl

answer-IsShaped_example :
    KeepsUsage bind []
      (answer int_field bind "chatcmpl-0" 9 job key client [] (answered (ok (response null)))).0
      (response null).usage
    × (((a : ApiResponse) × ((answer int_field bind "chatcmpl-0" 9 job key client []
              (answered (ok (response null)))).1
            ≡ ok a))
        ↔ IsShaped int_field "chatcmpl-0" 9 (response null))
answer-IsShaped_example =
    answer-IsShaped int_field bind "chatcmpl-0" 9 job key client [] (response null)
