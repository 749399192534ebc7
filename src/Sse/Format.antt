-- ===== src/Sse/Format.antt =====
-- What app/api/chat.py writes to a stream, read by the parser of app/core/sse.py.
use mathlib.Core.List.{append_assoc, append-nil}
use syn.Common.{ℕ, ◌≡◌, refl, ap, ◌∙◌, false, none, some, List, [], ◌∷◌, ◌++◌, map, arith, All}
use syn.Common.Text.{
  Text, text_eq, codes, strip, drop_while, lf, cr, has_char, split-free, rstrip, rstrip-free,
  partition, join,
}
use syn.Sse.{
  SseEvent, split_event, parse_event_block, read_lines, read_line, field_of, set_field, drop_space,
  finish, emit, drain, drain_all, flush, parse_sse,
}
use syn.Sse.Chunks.{text_of, events_of, parse_sse-events, drain_all-some}

-- _format_sse, of the text that json.dumps makes of the payload
unfoldable pub format_sse : Text → Text
format_sse payload = codes "data: " ++ payload ++ lf ∷ lf ∷ []

-- _format_sse_done
unfoldable pub format_sse_done : Text
format_sse_done = codes "data: [DONE]" ++ lf ∷ lf ∷ []

-- What a stream that completes writes: the chunks, and the end of the stream.
unfoldable pub stream : List Text → Text
unfolding format_sse format_sse_done
stream [] = format_sse_done
stream (p ∷ ps) = format_sse p ++ stream ps

-- The event that carries a payload.
abbrev pub message : Text → SseEvent
message p = record { payload = p; event = none; id = none }

-- json.dumps escapes the control characters of a payload.
abbrev pub IsOneLine : Text → Type 0
IsOneLine p = (has_char lf p ≡ false) × (has_char cr p ≡ false)

split_event-line :
    (line rest : Text)
    → has_char lf line ≡ false
    → split_event (line ++ lf ∷ lf ∷ rest) ≡ some (line, rest)
unfolding split_event has_char
split_event-line [] rest h = refl
split_event-line (c ∷ []) rest h = ground (arith, h)
split_event-line (c ∷ d ∷ line) rest h = ground (arith, h, split_event-line (d ∷ line) rest)

parse_event_block-data :
    (p : Text) → IsOneLine p → parse_event_block (codes "data: " ++ p) ≡ some (message p)
unfolding parse_event_block read_lines read_line field_of set_field drop_space finish has_char
    partition join text_eq
parse_event_block-data p (h, h') =
    let line = codes "data: " ++ p in rw (split-free lf line h, rstrip-free cr line h') refl

drain_all-format_sse :
    (p rest : Text)
    → IsOneLine p
    → drain_all (format_sse p ++ rest) ≡ (message p ∷ (drain_all rest).0, (drain_all rest).1)
unfolding format_sse has_char
drain_all-format_sse p rest h =
    let line = codes "data: " ++ p in
    ap (λ s. drain_all (codes "data: " ++ s)) (append_assoc p (lf ∷ lf ∷ []) rest)
    ∙ drain_all-some (line ++ lf ∷ lf ∷ rest) (split_event-line line rest h.0)
    ∙ ap (λ e. (emit e ++ (drain_all rest).0, (drain_all rest).1)) (parse_event_block-data p h)

pub drain_all-stream :
    (ps : List Text)
    → All IsOneLine ps
    → drain_all (stream ps) ≡ (map message ps ++ message (codes "[DONE]") ∷ [], [])
unfolding stream format_sse_done format_sse drain_all drain has_char
drain_all-stream [] h = drain_all-format_sse (codes "[DONE]") [] (refl, refl)
drain_all-stream (p ∷ ps) (h, hs) =
    drain_all-format_sse p (stream ps) h ∙ ap (λ r. (message p ∷ r.0, r.1)) (drain_all-stream ps hs)

-- The parser reads back the payloads of a stream that completes, in order, and the end of the
-- stream, however the bytes are cut into chunks that decode to the stream's text, if no payload
-- holds a line feed or a carriage return.
pub parse_sse-stream :
    (decode : List ℕ → Text) (chunks : List (List ℕ)) (ps : List Text)
    → All IsOneLine ps
    → text_of decode chunks ≡ stream ps
    → parse_sse decode chunks ≡ map message ps ++ message (codes "[DONE]") ∷ []
unfolding flush strip rstrip drop_while
parse_sse-stream decode chunks ps h e =
    parse_sse-events decode chunks
    ∙ ap events_of e
    ∙ ap (λ r. r.0 ++ flush r.1) (drain_all-stream ps h)
    ∙ append-nil (map message ps ++ message (codes "[DONE]") ∷ [])
