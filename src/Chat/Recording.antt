-- ===== src/Chat/Recording.antt =====
-- What the non-streaming handler of app/api/chat.py records, against what the client is answered.
use syn.Common.{
  ℕ, String, ◌≡◌, refl, ◌⊎◌, inl, inr, Bool, true, false, Option, none, some, List, [], ◌∷◌, ◌++◌,
  str_eq,
}
use syn.Common.Int.{ℤ}
use syn.Common.Json.{Json}
use syn.Errors.{SynError, make, class_code, Exn, gateway, other, Result, ok, err}
use syn.Usage.{completed, failed, UsageRecord, ApiKey, Client, row, record_usage}
use syn.LlamaCpp.Completion.{ChatCompletionUsage, ChatCompletionResponse}
use syn.Chat.{
  Job, model_of, Locals, initial, caught, backend_handlers, call_failed, code_or, queue_handlers,
  acquire_failed, Attempt, refused, answered, guarded, no_tokens, call_of, recorded_or,
  stored_tokens, non_streaming_completion,
}
use syn.Chat.Response.{ApiResponse, api_response, answer}
use syn.Chat.Handlers.{outcome_of, Unqueued, handlers-cases}

-- An error has a code, as `SynError.__init__` sees to.
abbrev pub HasCode : Attempt → Type 0
HasCode (refused (gateway e)) = str_eq e.code "" ≡ false
HasCode (answered (err (gateway e))) = str_eq e.code "" ≡ false
HasCode _ = Unit

-- The locals that are recorded, and what the guarded part ends with.
abbrev pub Agrees : Locals → Result ChatCompletionResponse → Type 0
Agrees l (ok r) = (l.outcome ≡ completed) × (l.error_code ≡ none)
Agrees l (err (gateway e)) =
    (l.outcome ≡ outcome_of e.cls)
    × ((l.error_code ≡ some e.code) ⊎ ((l.error_code ≡ none) × (l.outcome ≡ failed)))
Agrees l (err other) = (l.outcome ≡ failed) × (l.error_code ≡ none)

abbrev EndAgrees : Locals × Exn → Type 0
EndAgrees (l, e) = Agrees l (err e)

Unqueued-Agrees : (e : SynError) → Unqueued e.cls → EndAgrees (acquire_failed (initial, gateway e))
unfolding acquire_failed
Unqueued-Agrees e (o, q) = rw (q e initial, o) (refl, inr (refl, refl))

-- An error that the handlers around the backend let through.
passed_on :
    (e : SynError) → str_eq e.code "" ≡ false → EndAgrees (acquire_failed (initial, gateway e))
unfolding acquire_failed queue_handlers code_or
passed_on e h = elim (handlers-cases e.cls) [
  | inl (_, _, _, _, u) ↦ Unqueued-Agrees e u
  | inr (inl f) ↦ rw f (refl, inl (rw h refl))
  | inr (inr (inl f)) ↦ rw f (refl, inl (rw h refl))
  | inr (inr (inr (_, _, _, u))) ↦ Unqueued-Agrees e u
]

caught-Agrees : (code : String) → str_eq code "" ≡ false → EndAgrees (acquire_failed (caught code))
unfolding acquire_failed queue_handlers make
caught-Agrees code h = (refl, inl (rw h refl))

let_through :
    (e : SynError)
    → str_eq e.code "" ≡ false
    → backend_handlers e.cls (gateway e) ≡ (initial, gateway e)
    → EndAgrees (acquire_failed (backend_handlers e.cls (gateway e)))
let_through e h b = rw b (passed_on e h)

backend-Agrees :
    (e : SynError)
    → str_eq e.code "" ≡ false
    → EndAgrees (acquire_failed (backend_handlers e.cls (gateway e)))
backend-Agrees e h = elim (handlers-cases e.cls) [
  | inl (_, _, b, n, _) ↦ rw (b (gateway e)) (caught-Agrees (class_code e.cls) n)
  | inr (inl f) ↦ let_through e h (unfold backend_handlers in rw f refl)
  | inr (inr (inl f)) ↦ let_through e h (unfold backend_handlers in rw f refl)
  | inr (inr (inr (_, _, b, _))) ↦ let_through e h (b (gateway e))
]

refused-Agrees : (e : Exn) → HasCode (refused e) → EndAgrees (acquire_failed (initial, e))
unfolding acquire_failed
refused-Agrees (gateway e) h = passed_on e h
refused-Agrees other h = (refl, refl)

raised-Agrees : (e : Exn) → HasCode (answered (err e)) → EndAgrees (acquire_failed (call_failed e))
unfolding call_failed acquire_failed
raised-Agrees (gateway e) h = backend-Agrees e h
raised-Agrees other h = (refl, refl)

-- What the row of a request says of the error that the client is answered with.
abbrev pub RowAgrees : UsageRecord → Exn → Type 0
RowAgrees u (gateway e) =
    (u.status ≡ outcome_of e.cls)
    × ((u.error_code ≡ some e.code) ⊎ ((u.error_code ≡ none) × (u.status ≡ failed)))
RowAgrees u other = (u.status ≡ failed) × (u.error_code ≡ none)

-- The row of a request without a response.
pub record IsErrorRow (u : UsageRecord) (e : Exn) : Type 0 where
  pub agrees : RowAgrees u e
  pub no_prompt : u.prompt_tokens ≡ none
  pub no_completion : u.completion_tokens ≡ none
  pub no_total : u.total_tokens ≡ none

row-IsErrorRow :
    (j : Job) (key : ApiKey) (client : Client) (admitted : Bool) (l : Locals) (e : Exn)
    → Agrees l (err e)
    → IsErrorRow (row (some key) (some client) (call_of j admitted l no_tokens)) e
unfolding row call_of
row-IsErrorRow j key client admitted l (gateway e) (o, c) = record {
  agrees = (o, c);
  no_prompt = refl;
  no_completion = refl;
  no_total = refl;
}
row-IsErrorRow j key client admitted l other (o, c) = record {
  agrees = (o, c);
  no_prompt = refl;
  no_completion = refl;
  no_total = refl;
}

module _ (bind : Json → Result (Option ℕ)) where
  -- The row of a request with a response that carries a usage.
  pub record IsCompletedRow (u : UsageRecord) (usage : ChatCompletionUsage) : Type 0 where
    pub is_completed : u.status ≡ completed
    pub no_code : u.error_code ≡ none
    pub same_prompt : bind usage.prompt_tokens ≡ ok u.prompt_tokens
    pub same_completion : bind usage.completion_tokens ≡ ok u.completion_tokens
    pub same_total : bind usage.total_tokens ≡ ok u.total_tokens

  -- The database refuses one of the three numbers of a usage.
  abbrev pub IsUnstored : ChatCompletionUsage → Type 0
  IsUnstored usage =
      (e : Exn) × ((bind usage.prompt_tokens ≡ err e)
        ⊎ (bind usage.completion_tokens ≡ err e)
        ⊎ (bind usage.total_tokens ≡ err e))

  -- The table after a request with a response.
  abbrev pub KeepsUsage : List UsageRecord → List UsageRecord → ChatCompletionUsage → Type 0
  KeepsUsage table recorded usage =
      ((added : UsageRecord) × (recorded ≡ table ++ added ∷ []) × IsCompletedRow added usage)
      ⊎ ((recorded ≡ table) × IsUnstored usage)

  completed-KeepsUsage :
      (j : Job) (key : ApiKey) (client : Client) (table : List UsageRecord)
      (r : ChatCompletionResponse) (prompt completion total : Result (Option ℕ))
      → bind r.usage.prompt_tokens ≡ prompt
      → bind r.usage.completion_tokens ≡ completion
      → bind r.usage.total_tokens ≡ total
      → KeepsUsage table
          (non_streaming_completion bind j key client table (answered (ok r))).0
          r.usage
  unfolding non_streaming_completion guarded stored_tokens recorded_or record_usage row call_of
  completed-KeepsUsage j key client table r (err e) completion total hp hc ht =
      inr (rw (hp, non_streaming_completion) refl, (e, inl hp))
  completed-KeepsUsage j key client table r (ok p) (err e) total hp hc ht =
      inr (rw (hp, hc, non_streaming_completion) refl, (e, inr (inl hc)))
  completed-KeepsUsage j key client table r (ok p) (ok c) (err e) hp hc ht =
      inr (rw (hp, hc, ht, non_streaming_completion) refl, (e, inr (inr ht)))
  completed-KeepsUsage j key client table r (ok p) (ok c) (ok t) hp hc ht = inl (
    row (some key) (some client) (
        call_of j true (guarded (answered (ok r))).1
          (record { prompt_tokens = p; completion_tokens = c; total_tokens = t })),
    rw (hp, hc, ht, non_streaming_completion) refl,
    record {
      is_completed = refl;
      no_code = refl;
      same_prompt = hp;
      same_completion = hc;
      same_total = ht;
    },
  )

-- What is recorded of a request without a response, and the error that the client is answered with.
abbrev pub IsRaised : List UsageRecord → List UsageRecord × Result ApiResponse → Type 0
IsRaised table (recorded, replied) =
    (e : Exn) × (replied ≡ err e)
    × ((added : UsageRecord) × (recorded ≡ table ++ added ∷ []) × IsErrorRow added e)

module _ (int_field : Json → Result ℤ) (bind : Json → Result (Option ℕ)) (fallback_id : String)
    (now : ℕ) (j : Job) where
  -- What is recorded of a request that ends in some way, and what the client is answered.
  abbrev pub EndsAs : Attempt → List UsageRecord → List UsageRecord × Result ApiResponse → Type 0
  EndsAs (answered (ok r)) table (recorded, replied) =
      KeepsUsage bind table recorded r.usage
      × (replied ≡ api_response int_field fallback_id now (model_of j) r)
  EndsAs _ table ended = IsRaised table ended

  record_usage-IsRaised :
      (key : ApiKey) (client : Client) (table : List UsageRecord) (admitted : Bool) (l : Locals)
      (e : Exn)
      → Agrees l (err e)
      → IsRaised table
          (record_usage table (some key) (some client) (call_of j admitted l no_tokens), err e)
  unfolding record_usage
  record_usage-IsRaised key client table admitted l e h =
      (e, refl, (_, refl, row-IsErrorRow j key client admitted l e h))

  -- However a non-streaming request ends, its record and the client's answer agree. If the client is
  -- answered with an error because the admission or the backend raises one, one row is added: it says
  -- rejected for a full queue, timed out for a time-out in the queue and failed for any other, holds no
  -- tokens, and names the error's code or, for a failure, none. If the backend responds, one row is
  -- added that says completed, with no code, and holds the three numbers of tokens of the response,
  -- or the table stays as it was, because the database refuses one of them; the client is answered
  -- with the response in the schema, or with the error of a response that does not fit it. An error
  -- has a code.
  pub answer-EndsAs :
      (key : ApiKey) (client : Client) (table : List UsageRecord) (a : Attempt)
      → HasCode a
      → EndsAs a table (answer int_field bind fallback_id now j key client table a)
  unfolding answer non_streaming_completion stored_tokens recorded_or guarded
  answer-EndsAs key client table (answered (ok r)) h =
      (completed-KeepsUsage bind j key client table r _ _ _ refl refl refl, refl)
  answer-EndsAs key client table (refused e) h =
      record_usage-IsRaised key client table false (acquire_failed (initial, e)).0 _
        (refused-Agrees e h)
  answer-EndsAs key client table (answered (err e)) h =
      record_usage-IsRaised key client table true (acquire_failed (call_failed e)).0 _
        (raised-Agrees e h)
