-- ===== src/LlamaCpp/Stream/Relay.antt =====
-- A stream in the format that the gateway itself writes, read by app/backends/llama_cpp.py.
use syn.Common.{
  ℕ, ◌≡◌, refl, true, false, Option, none, some, List, [], ◌∷◌, ◌++◌, map, All, is_empty,
}
use syn.Common.Text.{Text, codes, text_eq, strip, rstrip, drop_while, is_space}
use syn.Common.Json.{Fields}
use syn.Errors.{ok}
use syn.Sse.{is_done}
use syn.Sse.Chunks.{text_of}
use syn.Sse.Format.{stream, message, IsOneLine, parse_sse-stream}
use syn.LlamaCpp.Completion.{ChatCompletionRequest, payload_of}
use syn.LlamaCpp.Stream.{
  Builtins, Chunk, StreamReply, responded, read_payload, relay, relay_response,
  stream_chat_completion,
}

done_is_done : is_done (message (codes "[DONE]")) ≡ true
unfolding is_done text_eq strip rstrip drop_while is_space
done_is_done = refl

module _ (py : Builtins) (r : ChatCompletionRequest) where
  -- A payload that a server sends as one event, and what it is read as.
  pub record IsSent (sent : Text × Option Chunk) : Type 0 where
    pub one_line : IsOneLine sent.0
    pub nonempty : is_empty sent.0 ≡ false
    pub not_done : is_done (message sent.0) ≡ false
    pub reads : read_payload py r.model sent.0 ≡ ok sent.1

  -- The chunks among what the payloads are read as.
  abbrev pub chunks_of : List (Text × Option Chunk) → List Chunk
  chunks_of [] = []
  chunks_of ((p, none) ∷ sent) = chunks_of sent
  chunks_of ((p, some c) ∷ sent) = c ∷ chunks_of sent

  relay-sent :
      (sent : List (Text × Option Chunk))
      → All IsSent sent
      → relay py r.model (map message (map (λ s. s.0) sent) ++ message (codes "[DONE]") ∷ [])
        ≡ (chunks_of sent, none)
  unfolding relay
  relay-sent [] a = rw done_is_done refl
  relay-sent ((p, none) ∷ sent) (a, rest) =
      rw (a.not_done, a.nonempty, a.reads) (relay-sent sent rest)
  relay-sent ((p, some c) ∷ sent) (a, rest) =
      rw (a.not_done, a.nonempty, a.reads, relay-sent sent rest) refl

  lines_of :
      (sent : List (Text × Option Chunk)) → All IsSent sent → All IsOneLine (map (λ s. s.0) sent)
  lines_of [] a = tt
  lines_of (s ∷ sent) (a, rest) = (a.one_line, lines_of sent rest)

  -- When the server answers with status 200 and a stream in the format that the gateway writes, the
  -- adapter yields exactly the chunks that its payloads are read as, in order, and raises nothing,
  -- however the bytes are cut into pieces whose texts, each decoded by itself, make up the stream.
  pub stream_chat_completion-stream :
      (decode : List ℕ → Text) (post : Fields → StreamReply) (chunks : List (List ℕ))
      (sent : List (Text × Option Chunk))
      → post (payload_of true r) ≡ responded 200 chunks
      → text_of decode chunks ≡ stream (map (λ s. s.0) sent)
      → All IsSent sent
      → stream_chat_completion py decode post r ≡ (chunks_of sent, none)
  unfolding stream_chat_completion relay_response
  stream_chat_completion-stream decode post chunks sent answer whole a =
      rw (answer, parse_sse-stream decode chunks (map (λ s. s.0) sent) (lines_of sent a) whole)
        (relay-sent sent a)
