-- ===== src/Sse/Tests.antt =====
-- Runs of the parser of app/core/sse.py, and instances of its theorems. The codec is that of ASCII.
use syn.Common.{ℕ, ◌≡◌, refl, List, [], ◌∷◌, ◌++◌, map}
use syn.Common.Text.{
  is_space, Text, codes, cr, lf, text_eq, has_char, split, rstrip, drop_while, strip, partition,
  join,
}
use syn.Sse.{
  parse_sse, parse_chunks, drain, drain_all, split_event, parse_event_block, read_lines, read_line,
  set_field, field_of, drop_space, finish, flush,
}
use syn.Sse.Format.{message, stream, format_sse, format_sse_done, parse_sse-stream}

abbrev ascii : List ℕ → Text
ascii bytes = bytes

-- The cuts fall inside a field and inside a separator.
abbrev chunks : List (List ℕ)
chunks =
    codes "dat" ∷ [] ∷ (codes "a: {}" ++ lf ∷ []) ∷ (lf ∷ codes "data: [DONE]" ++ lf ∷ lf ∷ []) ∷ []

abbrev one_chunk : List (List ℕ)
one_chunk = (codes "data: {}" ++ lf ∷ lf ∷ codes "data: [DONE]" ++ lf ∷ lf ∷ []) ∷ []

abbrev crlf_chunk : List ℕ
crlf_chunk = codes "data: a" ++ cr ∷ lf ∷ cr ∷ lf ∷ codes "data: b" ++ cr ∷ lf ∷ cr ∷ lf ∷ []

parse_sse-stream_example :
    parse_sse ascii chunks ≡ map message (codes "{}" ∷ []) ++ message (codes "[DONE]") ∷ []
unfolding stream format_sse format_sse_done has_char
parse_sse-stream_example = parse_sse-stream ascii chunks (codes "{}" ∷ []) ((refl, refl), tt) refl

-- With line ends of CR LF no blank line is found: two events are taken for one.
crlf_runs_together : parse_sse ascii (crlf_chunk ∷ []) ≡ message (codes "a" ++ lf ∷ codes "b") ∷ []
unfolding parse_sse parse_chunks drain_all drain split_event parse_event_block read_lines read_line
    set_field field_of drop_space finish flush strip rstrip drop_while partition join split has_char
    text_eq is_space
crlf_runs_together = refl
