-- ===== src/Chat/Conversion/Chained.antt =====
-- A gateway behind a gateway: what app/api/chat.py streams, app/backends/llama_cpp.py reads.
use syn.Common.{
  ℕ, suc, String, ◌≡◌, refl, ap, ◌∙◌, ◌⊎◌, inl, inr, true, false, Option, none, some, List, [], ◌∷◌,
  map, All, is_empty, Bool-cases, str_eq,
}
use syn.Common.Int.{ℤ}
use syn.Common.Text.{Text}
use syn.Common.Json.{Json, Fields, null, str, arr, obj, end, field, get_field, truthy}
use syn.Errors.{ok}
use syn.Sse.{is_done}
use syn.Sse.Chunks.{text_of}
use syn.Sse.Format.{stream, message, IsOneLine}
use syn.LlamaCpp.{get_or}
use syn.LlamaCpp.Completion.{ChatCompletionRequest, payload_of}
use syn.LlamaCpp.Stream.{
  Builtins, ChunkChoice, Chunk, StreamReply, responded, dict_or_empty, chunk_choice, chunk_choices,
  chunk_of, normalize_stream_chunk, read_payload, stream_chat_completion,
}
use syn.LlamaCpp.Stream.Relay.{IsSent, chunks_of, stream_chat_completion-stream}
use syn.Chat.Conversion.{
  set_if, delta_of, choice_items, text_or, if_truthy, put_field, chunk_to_api_dict, client_dict,
  stream_text,
}

-- A delta's dict gives back its role and its content.
role_of_delta : (r v : Json) → get_or (set_if "role" r (set_if "content" v end)) "role" null ≡ r
unfolding get_or get_field set_if
role_of_delta null null = refl
role_of_delta null _ = refl
role_of_delta _ _ = refl

content_of_delta :
    (r v : Json) → get_or (set_if "role" r (set_if "content" v end)) "content" null ≡ v
unfolding get_or get_field set_if
content_of_delta null null = refl
content_of_delta null _ = refl
content_of_delta _ null = refl
content_of_delta _ _ = refl

chunk_choices-choice_items :
    (idx : ℕ) (cs : List ChunkChoice) → chunk_choices idx (choice_items cs) ≡ cs
unfolding chunk_choices choice_items chunk_choice get_or get_field dict_or_empty delta_of
chunk_choices-choice_items idx [] = refl
chunk_choices-choice_items idx (c ∷ cs) =
    rw
      (
        role_of_delta c.role c.content,
        content_of_delta c.role c.content,
        chunk_choices-choice_items (suc idx) cs,
      )
      refl

-- The chunk that a client of the gateway gets.
abbrev pub relabelled : String → Chunk → Chunk
relabelled canonical_model c = record c { model = text_or canonical_model c.model }

module _ (py : Builtins) (number : ℤ → Json) (dumps : Fields → Text) (canonical_model : String)
    (r : ChatCompletionRequest) (text_of_str : (s : String) → py.text (str s) ≡ s) where
  -- A chunk that JSON can carry: it is read from what is written of it, and nothing that the server
  -- sent is falsy but null.
  pub record IsWritten (c : Chunk) : Type 0 where
    pub loads :
        py.loads (dumps (client_dict number canonical_model c))
        ≡ some (obj (client_dict number canonical_model c))
    pub created : py.int (number c.created) ≡ ok c.created
    pub object_name : str_eq c.object_name "" ≡ false
    pub fingerprint : (truthy c.system_fingerprint ≡ true) ⊎ (c.system_fingerprint ≡ null)
    pub one_line : IsOneLine (dumps (client_dict number canonical_model c))
    pub nonempty : is_empty (dumps (client_dict number canonical_model c)) ≡ false
    pub not_done : is_done (message (dumps (client_dict number canonical_model c))) ≡ false

  fingerprint_read :
      (v : Json)
      → (truthy v ≡ true) ⊎ (v ≡ null)
      → get_or (if_truthy "system_fingerprint" v) "system_fingerprint" null ≡ v
  unfolding if_truthy get_or get_field
  fingerprint_read v (inl e) = rw e refl
  fingerprint_read v (inr e) = rw e (unfold truthy in refl)

  -- The dict that is sent, with the model in its place.
  sent_dict : Chunk → Fields
  sent_dict c = field "id" (str c.id) (
      field "object" (str c.object_name) (
        field "created" (number c.created) (
          field "model" (str (text_or canonical_model c.model)) (
            field "choices" (arr (choice_items c.choices))
              (if_truthy "system_fingerprint" c.system_fingerprint)))))

  client_dict-sent_dict :
      (c : Chunk)
      → str_eq c.object_name "" ≡ false
      → client_dict number canonical_model c ≡ sent_dict c
  unfolding client_dict chunk_to_api_dict put_field sent_dict text_or
  client_dict-sent_dict c h = elim (Bool-cases (str_eq canonical_model "")) [
    | inl e ↦ rw (e, h) refl
    | inr e ↦ rw (e, h) refl
  ]

  normalize-sent_dict :
      (c : Chunk)
      → IsWritten c
      → normalize_stream_chunk py r.model (obj (sent_dict c))
        ≡ ok (some (relabelled canonical_model c))
  unfolding normalize_stream_chunk chunk_of get_or get_field sent_dict
  normalize-sent_dict c w =
      rw
        (
          w.created,
          text_of_str c.id,
          text_of_str c.object_name,
          text_of_str (text_or canonical_model c.model),
          chunk_choices-choice_items 0 c.choices,
        )
        (ap
          (λ v.
            ok
              (some (record c { model = text_or canonical_model c.model; system_fingerprint = v })))
          (fingerprint_read c.system_fingerprint w.fingerprint))

  write : Chunk → Text
  write c = dumps (client_dict number canonical_model c)

  -- What is sent for a chunk, and what it is read as.
  sent : List Chunk → List (Text × Option Chunk)
  sent [] = []
  sent (c ∷ cs) = (write c, some (relabelled canonical_model c)) ∷ sent cs

  IsWritten-IsSent :
      (c : Chunk) → IsWritten c → IsSent py r (write c, some (relabelled canonical_model c))
  unfolding read_payload write
  IsWritten-IsSent c w = record {
    one_line = w.one_line;
    nonempty = w.nonempty;
    not_done = w.not_done;
    reads =
        rw (w.loads, read_payload)
          (ap (λ d. normalize_stream_chunk py r.model (obj d))
              (client_dict-sent_dict c w.object_name)
            ∙ normalize-sent_dict c w);
  }

  sent-IsSent : (cs : List Chunk) → All IsWritten cs → All (IsSent py r) (sent cs)
  unfolding sent
  sent-IsSent [] a = tt
  sent-IsSent (c ∷ cs) (w, a) = (IsWritten-IsSent c w, sent-IsSent cs a)

  stream_text-stream :
      (cs : List Chunk) → stream_text write cs none ≡ stream (map (λ s. s.0) (sent cs))
  unfolding stream_text stream sent
  stream_text-stream [] = refl
  stream_text-stream (c ∷ cs) = rw (stream_text-stream cs) refl

  chunks_of-sent :
      (cs : List Chunk) → chunks_of py r (sent cs) ≡ map (relabelled canonical_model) cs
  unfolding sent
  chunks_of-sent [] = refl
  chunks_of-sent (c ∷ cs) = rw (chunks_of-sent cs) refl

  -- A gateway whose backend is a gateway: the chunks that the inner one streams without an error are
  -- those that the outer one's adapter yields, in order, with the model's canonical name, if there is
  -- one, in place of the backend's, however the bytes are cut into pieces whose texts, each decoded by
  -- itself, make up the stream. JSON carries each chunk as it is, and its printed dict stands in one
  -- line.
  pub stream_chat_completion-stream_text :
      (decode : List ℕ → Text) (post : Fields → StreamReply) (bytes : List (List ℕ))
      (cs : List Chunk)
      → post (payload_of true r) ≡ responded 200 bytes
      → text_of decode bytes
        ≡ stream_text (λ c. dumps (client_dict number canonical_model c)) cs none
      → All IsWritten cs
      → stream_chat_completion py decode post r ≡ (map (relabelled canonical_model) cs, none)
  unfolding write
  stream_chat_completion-stream_text decode post bytes cs answer whole a =
      stream_chat_completion-stream py r decode post bytes (sent cs) answer
        (whole ∙ stream_text-stream cs) (sent-IsSent cs a)
      ∙ ap (λ xs. (xs, none)) (chunks_of-sent cs)
