-- ===== src/Chat/Conversion/Tests.antt =====
-- What is written of a chunk, and the theorem on chained gateways at one.
use syn.Common.{ℕ, String, ◌≡◌, refl, inr, none, some, List, [], ◌∷◌, ◌++◌, map}
use syn.Common.Int.{ℤ, pos, negsuc}
use syn.Common.Text.{Text, codes, lf, has_char, text_eq, strip, rstrip, drop_while, is_space}
use syn.Common.Json.{Json, Fields, null, num, decimal, str, arr, obj, nil, cons, end, field, truthy}
use syn.Errors.{ok}
use syn.Sse.{is_done}
use syn.LlamaCpp.Completion.{ChatCompletionRequest}
use syn.LlamaCpp.Stream.{Builtins, Chunk, StreamReply, responded, stream_chat_completion}
use syn.Chat.Conversion.{client_dict, stream_text}
use syn.Chat.Conversion.Chained.{relabelled, stream_chat_completion-stream_text}

abbrev chunk : Chunk
chunk = record {
  id = "chatcmpl-1";
  object_name = "chat.completion.chunk";
  created = pos 7;
  model = "C:\\models\\tiny.gguf";
  choices = record { index = num 0; role = null; content = str "Hi"; finish_reason = null } ∷ [];
  system_fingerprint = null;
}

abbrev number : ℤ → Json
number (pos n) = num n
number (negsuc n) = decimal "-1"

abbrev written : Fields
written = field "id" (str "chatcmpl-1") (
    field "object" (str "chat.completion.chunk") (
      field "created" (num 7) (
        field "model" (str "tiny") (
          field "choices"
            (arr (
              cons
                (obj (
                  field "index" (num 0) (
                    field "delta" (obj (field "content" (str "Hi") end))
                      (field "finish_reason" null end))))
                nil))
            end))))

client_dict-chunk : client_dict number "tiny" chunk ≡ written
unfolding client_dict truthy
client_dict-chunk = refl

abbrev shown : Json → String
shown (str s) = s
shown _ = ""

abbrev builtins : Builtins
builtins = record { text = shown; int = λ v. ok (pos 7); loads = λ s. some (obj written) }

abbrev dumps : Fields → Text
dumps d = codes "{}"

abbrev request : ChatCompletionRequest
request = record {
  model = "tiny";
  messages = [];
  temperature = none;
  top_p = none;
  max_tokens = none;
  stop = none;
}

abbrev ascii : List ℕ → Text
ascii bytes = bytes

abbrev pieces : List (List ℕ)
pieces = codes "data: {" ∷ codes "}" ∷ (lf ∷ lf ∷ codes "data: [DONE]" ++ lf ∷ lf ∷ []) ∷ []

abbrev serve : Fields → StreamReply
serve payload = responded 200 pieces

stream_chat_completion-stream_text_example :
    stream_chat_completion builtins ascii serve request
    ≡ (map (relabelled "tiny") (chunk ∷ []), none)
unfolding stream_text has_char is_done text_eq strip rstrip drop_while is_space client_dict truthy
stream_chat_completion-stream_text_example =
    stream_chat_completion-stream_text builtins number dumps "tiny" request (λ s. refl) ascii serve
      pieces (chunk ∷ []) refl refl
      (
        record {
          loads = refl;
          created = refl;
          object_name = refl;
          fingerprint = inr refl;
          one_line = (refl, refl);
          nonempty = refl;
          not_done = refl;
        },
        tt,
      )
