-- ===== src/LlamaCpp/Stream.antt =====
-- The streaming chat completion of app/backends/llama_cpp.py, from what the server sends.
pub mod Relay
use syn.Common.{
  ℕ, suc, ◌+◌, String, Bool, true, false, not, Option, none, some, List, [], ◌∷◌, ◌++◌, ◌==◌,
  is_empty, if◌then◌else◌,
}
use syn.Common.Int.{ℤ}
use syn.Common.Text.{Text}
use syn.Common.Json.{
  Json, Items, Fields, null, bool, num, decimal, str, arr, obj, nil, cons, end, field, get_field,
}
use syn.Errors.{
  Exn, gateway, other, raised, Result, ok, err, ◌>>=◌, backend_unavailable, backend_protocol_error,
  backend_invalid_response,
}
use syn.Sse.{SseEvent, is_done, drain_all, parse_sse}
use syn.LlamaCpp.{TransportError, call_error, get_or, or_json}
use syn.LlamaCpp.Completion.{ChatCompletionRequest, payload_of}

-- What the builtins do on a value of JSON: str, int, and json.loads of a text.
pub record Builtins : Type 0 where
  pub text : Json → String
  pub int : Json → Result ℤ
  pub loads : Text → Option Json

pub record ChunkChoice : Type 0 where
  pub index : Json
  pub role : Json
  pub content : Json
  pub finish_reason : Json

pub record Chunk : Type 0 where
  pub id : String
  pub object_name : String
  pub created : ℤ
  pub model : String
  pub choices : List ChunkChoice
  pub system_fingerprint : Json

-- v or {}, and {} for what is no dict
unfoldable pub dict_or_empty : Json → Fields
dict_or_empty (obj d) = d
dict_or_empty null = end
dict_or_empty (bool b) = end
dict_or_empty (num n) = end
dict_or_empty (decimal s) = end
dict_or_empty (str s) = end
dict_or_empty (arr items) = end

unfoldable pub chunk_choice : ℕ → Fields → ChunkChoice
unfolding dict_or_empty
chunk_choice idx choice =
    let delta = dict_or_empty (get_or choice "delta" null) in
    record {
      index = get_or choice "index" (num idx);
      role = get_or delta "role" null;
      content = get_or delta "content" null;
      finish_reason = get_or choice "finish_reason" null;
    }

-- The loop over the choices, from an index; what is no dict is passed over.
unfoldable pub chunk_choices : ℕ → Items → List ChunkChoice
unfolding chunk_choice
chunk_choices idx nil = []
chunk_choices idx (cons (obj d) items) = chunk_choice idx d ∷ chunk_choices (suc idx) items
chunk_choices idx (cons null items) = chunk_choices (suc idx) items
chunk_choices idx (cons (bool b) items) = chunk_choices (suc idx) items
chunk_choices idx (cons (num n) items) = chunk_choices (suc idx) items
chunk_choices idx (cons (decimal s) items) = chunk_choices (suc idx) items
chunk_choices idx (cons (str s) items) = chunk_choices (suc idx) items
chunk_choices idx (cons (arr xs) items) = chunk_choices (suc idx) items

-- How `client.post` ends, which reads the whole body before it returns: without a response, or with
-- its status and the pieces that `aiter_bytes` gives of its body.
pub data StreamReply : Type 0 where
  transport_failed : TransportError → StreamReply
  crashed : StreamReply
  responded : ℕ → List (List ℕ) → StreamReply

-- A chunk in front of what a stream yields.
abbrev pub yield_first : Option Chunk → List Chunk × Option Exn → List Chunk × Option Exn
yield_first none rest = rest
yield_first (some c) (cs, e) = (c ∷ cs, e)

module _ (py : Builtins) (fallback_model : String) where
  unfoldable pub chunk_of : Fields → Items → Result (Option Chunk)
  unfolding chunk_choices
  chunk_of d raw_choices = do
    created ← py.int (get_or d "created" (num 0))
    ok (
        some (record {
          id = py.text (get_or d "id" (str ""));
          object_name = py.text (get_or d "object" (str "chat.completion.chunk"));
          created = created;
          model = py.text (get_or d "model" (str fallback_model));
          choices = chunk_choices 0 raw_choices;
          system_fingerprint = get_or d "system_fingerprint" null;
        }))

  unfoldable pub chunk_with : Fields → Option Json → Result (Option Chunk)
  unfolding chunk_of
  chunk_with d (some (arr raw_choices)) = chunk_of d raw_choices
  chunk_with d _ = ok none

  -- _normalize_stream_chunk
  unfoldable pub normalize_stream_chunk : Json → Result (Option Chunk)
  unfolding chunk_with
  normalize_stream_chunk (obj d) = chunk_with d (get_field d "choices")
  normalize_stream_chunk _ = ok none

  -- What an event's data is taken for: the data is parsed, and then normalised.
  unfoldable pub read_payload : Text → Result (Option Chunk)
  read_payload payload = elim (py.loads payload) [
    | none ↦ err (gateway (raised backend_invalid_response "backend_invalid_response"))
    | some value ↦ normalize_stream_chunk value
  ]

  -- The loop over the events: the chunks that it yields, and the exception that ends it, if any.
  unfoldable pub relay : List SseEvent → List Chunk × Option Exn
  relay [] = ([], none)
  relay (e ∷ es) =
      let rest = relay es in
      if is_done e
      then ([], none)
      else if is_empty e.payload
      then rest
      else (elim (read_payload e.payload) [
        | err thrown ↦ ([], some thrown)
        | ok chunk ↦ yield_first chunk rest
      ])

  relay_response : (List ℕ → Text) → StreamReply → List Chunk × Option Exn
  unfolding relay call_error
  relay_response decode (transport_failed e) = ([], some (call_error e))
  relay_response decode crashed = ([], some other)
  relay_response decode (responded status chunks) =
      if not (status == 200)
      then ([], some (gateway (raised backend_protocol_error "backend_protocol_error")))
      else relay (parse_sse decode chunks)

-- LlamaCppBackend.stream_chat_completion, from the server as a function of the payload
unfoldable pub stream_chat_completion :
    Builtins
    → (List ℕ → Text)
    → (Fields → StreamReply)
    → ChatCompletionRequest
    → List Chunk × Option Exn
unfolding relay_response
stream_chat_completion py decode post r =
    relay_response py r.model decode (post (payload_of true r))
