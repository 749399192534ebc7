-- ===== src/LlamaCpp/Completion/Outcomes.antt =====
-- How a chat completion of app/backends/llama_cpp.py ends.
use syn.Common.{
  ℕ, suc, ◌≡◌, refl, ap, ◌⊎◌, true, false, none, some, inl, inr, [], ◌==◌, str_eq, if◌then◌else◌,
  length, Bool-cases,
}
use syn.Common.Json.{
  Json, Items, Fields, null, bool, num, decimal, str, arr, obj, nil, cons, end, field,
}
use syn.Errors.{
  gateway, other, raised, Result, ok, err, ◌>>=◌, backend_timeout, backend_unavailable,
  backend_protocol_error, backend_invalid_response,
}
use syn.LlamaCpp.{
  Reply, transport_failed, crashed, answered, is_timeout, call_error, body_of, get_or, or_json,
}
use syn.LlamaCpp.Completion.{
  ChatCompletionRequest, ChatCompletionResponse, payload_of, as_dict, choice_of, choices_from,
  choices_of, usage_of, response_of, chat_completion,
}

-- What the normalisation takes: objects where it looks for entries.
abbrev pub IsObject : Json → Type 0
IsObject (obj d) = Unit
IsObject _ = ⊥

abbrev pub IsChoice : Json → Type 0
IsChoice (obj d) = IsObject (get_or d "message" (obj end))
IsChoice _ = ⊥

abbrev pub AreChoices : Items → Type 0
AreChoices nil = Unit
AreChoices (cons v items) = IsChoice v × AreChoices items

-- What can be iterated over, with a choice at each step.
abbrev pub AreIterable : Json → Type 0
AreIterable (arr items) = AreChoices items
AreIterable (obj end) = Unit
AreIterable (str s) = str_eq s "" ≡ true
AreIterable _ = ⊥

abbrev pub IsCompletion : Json → Type 0
IsCompletion (obj d) =
    AreIterable (get_or d "choices" (arr nil))
    × IsObject (or_json (get_or d "usage" null) (obj end))
IsCompletion _ = ⊥

abbrev pub count_items : Items → ℕ
count_items nil = 0
count_items (cons v items) = suc (count_items items)

abbrev pub count_choices : Json → ℕ
count_choices (arr items) = count_items items
count_choices _ = 0

-- A parser takes the values of a shape, and raises an exception that is none of the program's
-- for the others.
abbrev pub Parses {ℓ} : {A : Type ℓ} → Type 0 → (A → Type 0) → Result A → Type ℓ
Parses Shape Q result = (Shape × (x : _) × (result ≡ ok x) × Q x) ⊎ (¬ Shape × (result ≡ err other))

as_dict-Parses : (v : Json) → Parses (IsObject v) (λ d. v ≡ obj d) (as_dict v)
unfolding as_dict
as_dict-Parses (obj d) = inl (tt, d, refl, refl)
as_dict-Parses null = inr (λ n. n, refl)
as_dict-Parses (bool b) = inr (λ n. n, refl)
as_dict-Parses (num m) = inr (λ n. n, refl)
as_dict-Parses (decimal s) = inr (λ n. n, refl)
as_dict-Parses (str s) = inr (λ n. n, refl)
as_dict-Parses (arr items) = inr (λ n. n, refl)

choice_of-Parses : (idx : ℕ) (v : Json) → Parses (IsChoice v) (λ c. c.index ≡ idx) (choice_of idx v)
unfolding choice_of as_dict
choice_of-Parses idx (obj d) = elim (as_dict-Parses (get_or d "message" (obj end))) [
  | inl p ↦ rw p.2 (inl (p.0, _, refl, refl))
  | inr n ↦ inr (n.0, rw n.1 refl)
]
choice_of-Parses idx null = inr (λ n. n, refl)
choice_of-Parses idx (bool b) = inr (λ n. n, refl)
choice_of-Parses idx (num m) = inr (λ n. n, refl)
choice_of-Parses idx (decimal s) = inr (λ n. n, refl)
choice_of-Parses idx (str s) = inr (λ n. n, refl)
choice_of-Parses idx (arr items) = inr (λ n. n, refl)

choices_from-Parses :
    (idx : ℕ) (items : Items)
    → Parses (AreChoices items) (λ cs. length cs ≡ count_items items) (choices_from idx items)
unfolding choices_from
choices_from-Parses idx nil = inl (tt, [], refl, refl)
choices_from-Parses idx (cons v items) = elim (choice_of-Parses idx v) [
  | inl p ↦ elim (choices_from-Parses (suc idx) items) [
    | inl q ↦ rw (p.2, q.2) (inl ((p.0, q.0), _, refl, ap (λ n. suc n) q.3))
    | inr n ↦ inr (λ k. n.0 k.1, rw (p.2, n.1) refl)
  ]
  | inr n ↦ inr (λ k. n.0 k.0, rw n.1 refl)
]

choices_of-Parses :
    (v : Json) → Parses (AreIterable v) (λ cs. length cs ≡ count_choices v) (choices_of v)
unfolding choices_of
choices_of-Parses (arr items) = choices_from-Parses 0 items
choices_of-Parses (obj end) = inl (tt, [], refl, refl)
choices_of-Parses (obj (field k v d)) = inr (λ n. n, refl)
choices_of-Parses (str s) = elim (Bool-cases (str_eq s "")) [
  | inl e ↦ inl (e, [], rw e refl, refl)
  | inr e ↦ inr (λ n. absurd (cc), rw e refl)
]
choices_of-Parses null = inr (λ n. n, refl)
choices_of-Parses (bool b) = inr (λ n. n, refl)
choices_of-Parses (num m) = inr (λ n. n, refl)
choices_of-Parses (decimal s) = inr (λ n. n, refl)

usage_of-Parses : (v : Json) → Parses (IsObject (or_json v (obj end))) (λ u. Unit) (usage_of v)
unfolding usage_of
usage_of-Parses v = elim (as_dict-Parses (or_json v (obj end))) [
  | inl p ↦ rw p.2 (inl (p.0, _, refl, tt))
  | inr n ↦ inr (n.0, rw n.1 refl)
]

-- The entries of a body's choices.
abbrev pub choice_count : Json → ℕ
choice_count (obj d) = count_choices (get_or d "choices" (arr nil))
choice_count _ = 0

response_of-Parses :
    (r : ChatCompletionRequest) (body : Json)
    → Parses
        (IsCompletion body)
        (λ response. length response.choices ≡ choice_count body)
        (response_of r body)
unfolding response_of as_dict
response_of-Parses r (obj d) = elim (choices_of-Parses (get_or d "choices" (arr nil))) [
  | inl p ↦ elim (usage_of-Parses (get_or d "usage" null)) [
    | inl q ↦ rw (p.2, q.2) (inl ((p.0, q.0), _, refl, p.3))
    | inr n ↦ inr (λ k. n.0 k.1, rw (p.2, n.1) refl)
  ]
  | inr n ↦ inr (λ k. n.0 k.0, rw n.1 refl)
]
response_of-Parses r null = inr (λ n. n, refl)
response_of-Parses r (bool b) = inr (λ n. n, refl)
response_of-Parses r (num m) = inr (λ n. n, refl)
response_of-Parses r (decimal s) = inr (λ n. n, refl)
response_of-Parses r (str s) = inr (λ n. n, refl)
response_of-Parses r (arr items) = inr (λ n. n, refl)

-- How a chat completion ends, for each way in which the call of the server can end.
abbrev pub Outcome : Reply → Result ChatCompletionResponse → Type 0
Outcome (transport_failed e) result =
    result
    ≡ err (
        gateway (
          if is_timeout e
          then raised backend_timeout "backend_timeout"
          else raised backend_unavailable "backend_unavailable"))
Outcome crashed result = result ≡ err other
Outcome (answered status none) result =
    result
    ≡ err (
        gateway (
          if status == 200
          then raised backend_invalid_response "backend_invalid_response"
          else raised backend_protocol_error "backend_protocol_error"))
Outcome (answered status (some body)) result =
    if status == 200
    then Parses (IsCompletion body) (λ response. length response.choices ≡ choice_count body) result
    else result ≡ err (gateway (raised backend_protocol_error "backend_protocol_error"))

body_of-Outcome :
    (r : ChatCompletionRequest) (reply : Reply)
    → Outcome reply (body_of reply >>= λ body. response_of r body)
unfolding body_of call_error
body_of-Outcome r (transport_failed e) = elim (Bool-cases (is_timeout e)) [
  | inl h ↦ rw h refl
  | inr h ↦ rw h refl
]
body_of-Outcome r crashed = refl
body_of-Outcome r (answered status none) = elim (Bool-cases (status == 200)) [
  | inl h ↦ rw h refl
  | inr h ↦ rw h refl
]
body_of-Outcome r (answered status (some body)) = elim (Bool-cases (status == 200)) [
  | inl h ↦ rw h (response_of-Parses r body)
  | inr h ↦ rw h refl
]

-- A chat completion raises the timeout error when the client times out, the unavailable error on
-- another transport error, the protocol error for a status other than 200, and the invalid
-- response error for a body that is no JSON. A JSON body of the expected shape is answered, with as
-- many choices as it has; one of another shape raises an exception that is none of the program's
-- errors.
pub chat_completion-Outcome :
    (post : Fields → Reply) (r : ChatCompletionRequest)
    → Outcome (post (payload_of false r)) (chat_completion post r)
unfolding chat_completion
chat_completion-Outcome post r = body_of-Outcome r (post (payload_of false r))
