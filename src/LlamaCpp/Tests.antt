-- ===== src/LlamaCpp/Tests.antt =====
-- Runs of app/backends/llama_cpp.py's adapter, and instances of its theorems.
use syn.Common.{String, ℕ, ◌≡◌, refl, false, none, some, List, [], ◌∷◌, ◌++◌}
use syn.Common.Int.{pos}
use syn.Common.Text.{Text, codes, lf, has_char, split, text_eq, strip, rstrip, drop_while, is_space}
use syn.Common.Json.{Json, Fields, str, null, arr, obj, nil, cons, end, field, get_field}
use syn.Errors.{ok, err, other}
use syn.Backend.{timeout}
use syn.Sse.{is_done}
use syn.Sse.Format.{stream, format_sse, format_sse_done}
use syn.LlamaCpp.{Reply, answered, sanitize_model_name, get_or, body_of}
use syn.LlamaCpp.Health.{health}
use syn.LlamaCpp.Health.Answers.{Reported, health-Reported}
use syn.LlamaCpp.Completion.{
  ChatCompletionRequest, chat_completion, payload_of, response_of, choices_of, as_dict,
}
use syn.LlamaCpp.Completion.Outcomes.{Outcome, chat_completion-Outcome}
use syn.LlamaCpp.Stream.{
  Builtins, Chunk, StreamReply, responded, read_payload, normalize_stream_chunk, chunk_choices,
  stream_chat_completion,
}
use syn.LlamaCpp.Stream.Relay.{chunks_of, stream_chat_completion-stream}

abbrev text : Json → Text
text (str s) = codes s
text _ = []

-- A Windows path is cut to its last part.
path_is_cut : sanitize_model_name (codes "D:\\llama/Foo.gguf") ≡ some (codes "Foo.gguf")
unfolding sanitize_model_name has_char split
path_is_cut = refl

abbrev ok_body : Json
ok_body = obj (field "status" (str "ok") end)

abbrev model_list : Json
model_list = obj (field "data" (arr (cons null (cons (obj (field "id" (str "a/b") end)) nil))) end)

health-Reported_example :
    Reported text
      (answered 200 (some model_list))
      (some timeout)
      (answered 200 (some ok_body))
      (health text (answered 200 (some ok_body)) (answered 200 (some model_list)) (some timeout))
health-Reported_example =
    health-Reported text (answered 200 (some model_list)) (some timeout)
      (answered 200 (some ok_body)) (λ h. absurd (cc))

abbrev request : ChatCompletionRequest
request = record {
  model = "m";
  messages = [];
  temperature = none;
  top_p = none;
  max_tokens = some 5;
  stop = none;
}

abbrev post : Fields → Reply
post payload = answered 200 (some (obj (field "choices" null end)))

-- A body whose choices are null ends in an exception that is none of the program's errors.
null_choices : chat_completion post request ≡ err other
unfolding chat_completion body_of response_of as_dict choices_of get_or get_field
null_choices = refl

chat_completion-Outcome_example :
    Outcome (post (payload_of false request)) (chat_completion post request)
chat_completion-Outcome_example = chat_completion-Outcome post request

abbrev shown : Json → String
shown (str s) = s
shown _ = ""

abbrev builtins : Builtins
builtins = record {
  text = shown;
  int = λ v. ok (pos 0);
  loads = λ s. some (obj (field "choices" (arr nil) end));
}

abbrev ascii : List ℕ → Text
ascii bytes = bytes

abbrev chunk : Chunk
chunk = record {
  id = "";
  object_name = "chat.completion.chunk";
  created = pos 0;
  model = "m";
  choices = [];
  system_fingerprint = null;
}

abbrev serve : Fields → StreamReply
serve payload =
    responded 200
      ((codes "data: {" ∷ codes "}" ∷ (lf ∷ lf ∷ codes "data: [DONE]" ++ lf ∷ lf ∷ []) ∷ []))

stream_chat_completion-stream_example :
    stream_chat_completion builtins ascii serve request
    ≡ (chunks_of builtins request ((codes "{}", some chunk) ∷ []), none)
unfolding stream format_sse format_sse_done has_char is_done text_eq strip rstrip drop_while
    is_space read_payload normalize_stream_chunk get_or get_field chunk_choices
stream_chat_completion-stream_example =
    stream_chat_completion-stream builtins request ascii serve
      ((codes "data: {" ∷ codes "}" ∷ (lf ∷ lf ∷ codes "data: [DONE]" ++ lf ∷ lf ∷ []) ∷ []))
      ((codes "{}", some chunk) ∷ []) refl refl
      (record { one_line = (refl, refl); nonempty = refl; not_done = refl; reads = refl }, tt)
