-- ===== src/Sse/Chunks.antt =====
-- How a stream is cut into chunks does not matter to app/core/sse.py, once it is decoded.
use mathlib.Core.List.{append_assoc, append-nil}
use syn.Common.{
  ℕ, zero, suc, ◌+◌, ◌≤◌, ◌≡◌, refl, sym, ap, ◌∙◌, inl, inr, none, some, List, [], ◌∷◌, ◌++◌, arith,
  is_empty, length, Option-cases, if◌then◌else◌,
}
use syn.Common.Text.{Text}
use syn.Sse.{
  SseEvent, parse_event_block, split_event, emit, drain, drain_all, flush, parse_chunks, parse_sse,
}

-- A separator that is found stays the first one when text is added behind.
split_event-append :
    (s t : Text) {b a : Text}
    → split_event s ≡ some (b, a)
    → split_event (s ++ t) ≡ some (b, a ++ t)
unfolding split_event
split_event-append [] t h = cc
split_event-append (c ∷ []) t h = cc
split_event-append (c ∷ d ∷ s) t {b} {a} h = elim (Option-cases (split_event (d ∷ s))) [
  | inl e ↦ ground (arith, h, e)
  | inr ((x, y), e) ↦ ground (arith, h, e, split_event-append (d ∷ s) t e)
]

length-split_event : (s : Text) {b a : Text} → split_event s ≡ some (b, a) → length a + 2 ≤ length s
unfolding split_event
length-split_event [] h = absurd (cc)
length-split_event (c ∷ []) h = absurd (cc)
length-split_event (c ∷ d ∷ s) h = elim (Option-cases (split_event (d ∷ s))) [
  | inl e ↦ ground (arith, h, e)
  | inr ((x, y), e) ↦ ground (arith, h, e, length-split_event (d ∷ s) e)
]

-- What one round of the loop does with a buffer whose first event is found.
abbrev pub round : Text → List SseEvent × Text → List SseEvent × Text
round block (events, left) = (emit (parse_event_block block) ++ events, left)

drain-some :
    (n : ℕ) (s : Text) {b a : Text}
    → split_event s ≡ some (b, a)
    → drain (suc n) s ≡ round b (drain n a)
unfolding drain
drain-some n s h = rw (h, drain) refl

drain-none : (n : ℕ) (s : Text) → split_event s ≡ none → drain n s ≡ ([], s)
unfolding drain
drain-none zero s h = refl
drain-none (suc n) s h = rw (h, drain) refl

pub split_event-short : (s : Text) → length s ≤ 0 → split_event s ≡ none
unfolding split_event
split_event-short [] h = refl
split_event-short (c ∷ s) h = absurd (omega (arith, h))

-- Fuel of the buffer's length is enough.
drain-enough : (n m : ℕ) (s : Text) → length s ≤ n → length s ≤ m → drain n s ≡ drain m s
drain-enough zero m s hn hm =
    let e = split_event-short s hn in drain-none zero s e ∙ sym (drain-none m s e)
drain-enough (suc n) zero s hn hm =
    let e = split_event-short s hm in drain-none (suc n) s e ∙ sym (drain-none zero s e)
drain-enough (suc n) (suc m) s hn hm = elim (Option-cases (split_event s)) [
  | inl e ↦ drain-none (suc n) s e ∙ sym (drain-none (suc m) s e)
  | inr ((b, a), e) ↦
      drain-some n s e
      ∙ ap (round b) (
          drain-enough n m a (omega (arith, hn, length-split_event s e))
            (omega (arith, hm, length-split_event s e)))
      ∙ sym (drain-some m s e)
]

pub drain_all-some :
    (s : Text) {b a : Text} → split_event s ≡ some (b, a) → drain_all s ≡ round b (drain_all a)
unfolding drain_all
drain_all-some s {b} {a} e =
    drain-enough (length s) (suc (length s)) s (omega arith) (omega arith)
    ∙ drain-some (length s) s e
    ∙ ap (round b)
        (drain-enough (length s) (length a) a (omega (arith, length-split_event s e)) (omega arith))

-- The events of a text and then of what is left of it with more text behind.
abbrev pub continue : Text → List SseEvent × Text → List SseEvent × Text
continue t (events, left) = (events ++ (drain_all (left ++ t)).0, (drain_all (left ++ t)).1)

pub drain_all-none : (s : Text) → split_event s ≡ none → drain_all s ≡ ([], s)
unfolding drain_all
drain_all-none s e = drain-none (length s) s e

continue-round :
    (t b : Text) (r : List SseEvent × Text) → continue t (round b r) ≡ round b (continue t r)
continue-round t b (events, left) =
    ap (λ es. (es, (drain_all (left ++ t)).1))
      (append_assoc (emit (parse_event_block b)) events (drain_all (left ++ t)).0)

drain_at : (n : ℕ) (s t : Text) → length s ≤ n → drain_all (s ++ t) ≡ continue t (drain_all s)
drain_at zero s t hn = sym (ap (continue t) (drain_all-none s (split_event-short s hn)))
drain_at (suc n) s t hn = elim (Option-cases (split_event s)) [
  | inl e ↦ sym (ap (continue t) (drain_all-none s e))
  | inr ((b, a), e) ↦
      drain_all-some (s ++ t) (split_event-append s t e)
      ∙ ap (round b) (drain_at n a t (omega (arith, hn, length-split_event s e)))
      ∙ sym (continue-round t b (drain_all a))
      ∙ sym (ap (continue t) (drain_all-some s e))
]

-- What is left of a buffer holds no separator.
pub left_at : (n : ℕ) (s : Text) → length s ≤ n → split_event (drain_all s).1 ≡ none
left_at zero s hn =
    let e = split_event-short s hn in ap (λ r. split_event r.1) (drain_all-none s e) ∙ e
left_at (suc n) s hn = elim (Option-cases (split_event s)) [
  | inl e ↦ ap (λ r. split_event r.1) (drain_all-none s e) ∙ e
  | inr ((b, a), e) ↦
      ap (λ r. split_event r.1) (drain_all-some s e)
      ∙ left_at n a (omega (arith, hn, length-split_event s e))
]

pub drain_all-append : (s t : Text) → drain_all (s ++ t) ≡ continue t (drain_all s)
drain_all-append s t = drain_at (length s) s t (omega arith)

-- The text of a stream: that of its chunks, the empty ones passed over.
abbrev pub text_of : (List ℕ → Text) → List (List ℕ) → Text
text_of decode [] = []
text_of decode (chunk ∷ chunks) =
    let rest = text_of decode chunks in if is_empty chunk then rest else decode chunk ++ rest

-- The events of a text that comes in one piece.
abbrev pub events_of : Text → List SseEvent
events_of s = (drain_all s).0 ++ flush (drain_all s).1

parse_chunks-events :
    (decode : List ℕ → Text) (buffer : Text) (chunks : List (List ℕ))
    → split_event buffer ≡ none
    → parse_chunks decode buffer chunks ≡ events_of (buffer ++ text_of decode chunks)
unfolding parse_chunks
parse_chunks-events decode buffer [] h =
    rw (append-nil buffer) (sym (ap (λ r. r.0 ++ flush r.1) (drain_all-none buffer h)))
parse_chunks-events decode buffer ([] ∷ chunks) h = parse_chunks-events decode buffer chunks h
parse_chunks-events decode buffer ((x ∷ xs) ∷ chunks) h =
    let d = decode (x ∷ xs) in
    let rest = text_of decode chunks in
    let first = drain_all (buffer ++ d) in
    let later = drain_all (first.1 ++ rest) in
    ap (λ es. first.0 ++ es)
      (parse_chunks-events decode first.1 chunks
        (left_at (length (buffer ++ d)) (buffer ++ d) (omega arith)))
    ∙ sym (append_assoc first.0 later.0 (flush later.1))
    ∙ sym (ap (λ r. r.0 ++ flush r.1) (drain_all-append (buffer ++ d) rest))
    ∙ ap events_of (append_assoc buffer d rest)

pub parse_sse-events :
    (decode : List ℕ → Text) (chunks : List (List ℕ))
    → parse_sse decode chunks ≡ events_of (text_of decode chunks)
unfolding parse_sse
parse_sse-events decode chunks =
    parse_chunks-events decode [] chunks (split_event-short [] (omega arith))

-- Two streams of the same text have the same events, however the text is cut into chunks, and also
-- where a cut falls inside a separator or a field.
pub parse_sse-same :
    (decode : List ℕ → Text) (xs ys : List (List ℕ))
    → text_of decode xs ≡ text_of decode ys
    → parse_sse decode xs ≡ parse_sse decode ys
parse_sse-same decode xs ys h =
    parse_sse-events decode xs ∙ ap events_of h ∙ sym (parse_sse-events decode ys)
