-- ===== src/Sse.antt =====
-- app/core/sse.py: the parser of server-sent events, over the decoded texts of the chunks.
pub mod Chunks
pub mod Format
mod Tests
use syn.Common.{
  ℕ, zero, suc, Bool, true, false, ◌&&◌, not, Option, none, some, List, [], ◌∷◌, ◌++◌, ◌==◌,
  is_empty, length, if◌then◌else◌,
}
use syn.Common.Text.{Text, codes, lf, cr, text_eq, strip, rstrip, has_char, split, partition, join}

pub record SseEvent : Type 0 where
  pub payload : Text
  pub event : Option Text
  pub id : Option Text

unfoldable pub is_done : SseEvent → Bool
is_done e = text_eq (strip e.payload) (codes "[DONE]")

-- The locals of `_parse_event_block`.
pub record Block : Type 0 where
  pub data_parts : List Text
  pub event_name : Option Text
  pub event_id : Option Text

-- SSE spec: strip a single leading space from value.
unfoldable pub drop_space : Text → Text
drop_space [] = []
drop_space (c ∷ s) = if c == b' ' then s else c ∷ s

unfoldable pub field_of : Text → Text × Text
unfolding drop_space
field_of line =
    if has_char b':' line
    then (let (name, value) = partition b':' line in (name, drop_space value))
    else (line, [])

unfoldable pub set_field : Block → Text × Text → Block
set_field b (name, value) =
    if text_eq name (codes "data")
    then record b { data_parts = b.data_parts ++ value ∷ [] }
    else if text_eq name (codes "event")
    then record b { event_name = some value }
    else if text_eq name (codes "id")
    then record b { event_id = some value }
    else b

-- The body of the loop over the lines, once the line's CR is stripped.
unfoldable pub read_line : Block → Text → Block
unfolding set_field field_of
read_line b [] = b
read_line b (c ∷ s) = if c == b':' then b else set_field b (field_of (c ∷ s))

unfoldable pub read_lines : Block → List Text → Block
unfolding read_line
read_lines b [] = b
read_lines b (line ∷ lines) = read_lines (read_line b (rstrip (λ c. c == cr) line)) lines

abbrev is_none : Option Text → Bool
is_none none = true
is_none (some x) = false

unfoldable pub finish : Block → Option SseEvent
finish b =
    if is_empty b.data_parts && is_none b.event_name
    then none
    else some (record { payload = join lf b.data_parts; event = b.event_name; id = b.event_id })

abbrev no_lines : Block
no_lines = record { data_parts = []; event_name = none; event_id = none }

unfoldable pub parse_event_block : Text → Option SseEvent
unfolding read_lines finish
parse_event_block block = finish (read_lines no_lines (split lf block))

-- buffer.split("\n\n", 1), if "\n\n" is in the buffer
unfoldable pub split_event : Text → Option (Text × Text)
split_event [] = none
split_event (c ∷ []) = none
split_event (c ∷ d ∷ s) =
    let rest = split_event (d ∷ s) in
    if c == lf && d == lf
    then some ([], s)
    else (elim rest [ none ↦ none | some (block, after) ↦ some (c ∷ block, after) ])

-- if event is not None: yield event
abbrev pub emit : Option SseEvent → List SseEvent
emit none = []
emit (some e) = e ∷ []

-- while "\n\n" in buffer: the events that it yields, and the buffer that is left.
unfoldable pub drain : ℕ → Text → List SseEvent × Text
drain zero buffer = ([], buffer)
drain (suc fuel) buffer = elim (split_event buffer) [
  | none ↦ ([], buffer)
  | some (block, after) ↦
      let (events, left) = drain fuel after in (emit (parse_event_block block) ++ events, left)
]

-- Every round takes characters off the buffer, so its length is fuel enough.
unfoldable pub drain_all : Text → List SseEvent × Text
unfolding drain
drain_all buffer = drain (length buffer) buffer

-- if buffer.strip(): the flush at the end of the stream.
unfoldable pub flush : Text → List SseEvent
flush buffer = if is_empty (strip buffer) then [] else emit (parse_event_block buffer)

-- The loop over the chunks and the flush; a chunk is its bytes, and `decode` is the codec's.
unfoldable pub parse_chunks : (List ℕ → Text) → Text → List (List ℕ) → List SseEvent
parse_chunks decode buffer [] = flush buffer
parse_chunks decode buffer (chunk ∷ chunks) =
    let rest = parse_chunks decode (drain_all (buffer ++ decode chunk)).1 chunks in
    let skipped = parse_chunks decode buffer chunks in
    if is_empty chunk then skipped else (drain_all (buffer ++ decode chunk)).0 ++ rest

unfoldable pub parse_sse : (List ℕ → Text) → List (List ℕ) → List SseEvent
unfolding parse_chunks
parse_sse decode chunks = parse_chunks decode [] chunks
