-- ===== src/Chat/Conversion.antt =====
-- app/api/chat.py: what the handlers make of a backend's chunks and responses for the client, in the
-- shapes of app/api/chat_schemas.py.
pub mod Chained
mod Tests
use syn.Common.{
  ℕ, ◌*◌, String, Bool, true, false, not, Option, none, some, List, [], ◌∷◌, ◌++◌, map, str_eq,
  ◌==◌, if◌then◌else◌,
}
use syn.Common.Int.{ℤ}
use syn.Common.Text.{Text}
use syn.Common.Json.{
  Json, Items, Fields, null, bool, num, decimal, str, arr, obj, nil, cons, end, field, truthy,
}
use syn.Errors.{Exn, other, Result, ok, err, ◌>>=◌}
use syn.Sse.Format.{format_sse, format_sse_done}
use syn.LlamaCpp.Completion.{Choice, ChatCompletionUsage, ChatCompletionResponse}
use syn.LlamaCpp.Stream.{ChunkChoice, Chunk}

-- if value is not None: d[key] = value, in front of what follows
unfoldable pub set_if : String → Json → Fields → Fields
set_if k null d = d
set_if k v d = field k v d

unfoldable pub delta_of : ChunkChoice → Fields
unfolding set_if
delta_of c = set_if "role" c.role (set_if "content" c.content end)

unfoldable pub choice_items : List ChunkChoice → Items
unfolding delta_of
choice_items [] = nil
choice_items (c ∷ cs) =
    cons
      (obj (
        field "index" c.index
          (field "delta" (obj (delta_of c)) (field "finish_reason" c.finish_reason end))))
      (choice_items cs)

-- text or default
unfoldable pub text_or : String → String → String
text_or s default = if str_eq s "" then default else s

-- **({key: value} if value else {})
unfoldable pub if_truthy : String → Json → Fields
if_truthy k v = if truthy v then field k v end else end

-- d[key] = value
unfoldable pub put_field : Fields → String → Json → Fields
put_field end k v = field k v end
put_field (field j w d) k v = if str_eq j k then field j v d else field j w (put_field d k v)

module _ (number : ℤ → Json) where
  -- _chunk_to_api_dict; the function writes a whole number as JSON
  unfoldable pub chunk_to_api_dict : Chunk → Fields
  unfolding choice_items text_or if_truthy
  chunk_to_api_dict c = field "id" (str c.id) (
      field "object" (str (text_or c.object_name "chat.completion.chunk")) (
        field "created" (number c.created) (
          field "model" (str c.model) (
            field "choices" (arr (choice_items c.choices))
              (if_truthy "system_fingerprint" c.system_fingerprint)))))

  -- if canonical_model: chunk_dict["model"] = canonical_model
  unfoldable pub client_dict : String → Chunk → Fields
  unfolding chunk_to_api_dict put_field
  client_dict canonical_model c =
      let d = chunk_to_api_dict c in
      if str_eq canonical_model "" then d else put_field d "model" (str canonical_model)

-- What a stream that has begun writes: the chunks, and the end of the stream if nothing is raised.
unfoldable pub stream_text : (Chunk → Text) → List Chunk → Option Exn → Text
unfolding format_sse format_sse_done
stream_text write [] none = format_sse_done
stream_text write [] (some thrown) = []
stream_text write (c ∷ cs) e = format_sse (write c) ++ stream_text write cs e
