-- ===== src/Chat.antt =====
-- app/api/chat.py: how the two completion handlers end, and what they record of it.
-- The durations that a handler measures, in rounded milliseconds, are given with its request.
mod Handlers
pub mod Dispatch
pub mod Conversion
pub mod Response
pub mod Recording
pub mod Streams
pub mod Tests
use syn.Common.{
  ℕ, zero, suc, String, Bool, true, false, ◌&&◌, not, Option, none, some, List, [], ◌∷◌, str_eq,
  if◌then◌else◌,
}
use syn.Errors.{
  ErrorClass, SynError, make, syn_error, backend_timeout, backend_protocol_error,
  backend_invalid_response, backend_unavailable, queue_full, queue_timeout, Exn, gateway, other,
  Result, ok, err, ◌>>=◌,
}
use syn.Common.Json.{Json}
use syn.LlamaCpp.Completion.{ChatCompletionResponse}
use syn.Usage.{
  Outcome, completed, failed, cancelled, timed_out, rejected, same_outcome, UsageRecord, ApiKey,
  Client, Call, record_usage,
}

-- The usage of a request, as the database stores it.
pub record StoredTokens : Type 0 where
  pub prompt_tokens : Option ℕ
  pub completion_tokens : Option ℕ
  pub total_tokens : Option ℕ

-- What both handlers record of a request, whichever way it ends.
pub record Job : Type 0 where
  pub request_id : String
  pub canonical_model : String
  pub request_model : String
  pub backend_id : Option String
  pub started_at : ℕ
  pub completed_at : ℕ
  pub queue_wait : ℕ
  pub backend_latency : ℕ
  pub ttft : ℕ
  pub stream_duration : ℕ
  pub total_duration : ℕ

-- canonical_model or internal_req.model
unfoldable pub model_of : Job → String
model_of j = if str_eq j.canonical_model "" then j.request_model else j.canonical_model

-- The locals `outcome`, `error_code` and whether `backend_completed` is set.
pub record Locals : Type 0 where
  pub outcome : Outcome
  pub error_code : Option String
  pub timed : Bool

abbrev pub initial : Locals
initial = record { outcome = failed; error_code = none; timed = false }

-- A handler's locals, and what it raises.
abbrev pub caught : String → Locals × Exn
caught code = (
  record { outcome = failed; error_code = some code; timed = true },
  gateway (make syn_error (some code) (some 502) none),
)

-- The four `except` clauses around the call of the backend.
unfoldable pub backend_handlers : ErrorClass → Exn → Locals × Exn
backend_handlers backend_timeout e = caught "backend_timeout"
backend_handlers backend_protocol_error e = caught "backend_protocol_error"
backend_handlers backend_invalid_response e = caught "backend_invalid_response"
backend_handlers backend_unavailable e = caught "backend_unavailable"
backend_handlers _ e = (initial, e)

unfoldable pub call_failed : Exn → Locals × Exn
unfolding backend_handlers
call_failed (gateway e) = backend_handlers e.cls (gateway e)
call_failed other = (initial, other)

-- exc.code or default
unfoldable pub code_or : String → String → String
code_or code default = if str_eq code "" then default else code

-- The two `except` clauses around `async with admission.acquire()`.
unfoldable pub queue_handlers : ErrorClass → SynError → Locals → Locals
unfolding code_or
queue_handlers queue_full e l = record l {
  outcome = rejected;
  error_code = some (code_or e.code "queue_full");
}
queue_handlers queue_timeout e l = record l {
  outcome = timed_out;
  error_code = some (code_or e.code "queue_timeout");
}
queue_handlers _ e l = l

unfoldable pub acquire_failed : Locals × Exn → Locals × Exn
unfolding queue_handlers
acquire_failed (l, gateway e) = (queue_handlers e.cls e l, gateway e)
acquire_failed (l, other) = (l, other)

-- How the guarded part of `_non_streaming_completion` runs: the admission raises, or the backend
-- answers while the slot is held.
pub data Attempt : Type 0 where
  refused : Exn → Attempt
  answered : Result ChatCompletionResponse → Attempt

-- Whether the slot was acquired, the locals at the `finally`, and the response or what is raised.
unfoldable pub guarded : Attempt → Bool × Locals × Result ChatCompletionResponse
unfolding call_failed acquire_failed
guarded (refused e) = let (l, raised) = acquire_failed (initial, e) in (false, l, err raised)
guarded (answered (ok r)) =
    (true, record { outcome = completed; error_code = none; timed = true }, ok r)
guarded (answered (err e)) =
    let (l, raised) = acquire_failed (call_failed e) in (true, l, err raised)

abbrev when : Bool → ℕ → Option ℕ
when b n = if b then some n else none

-- The columns of the tokens that a request without a response keeps.
abbrev pub no_tokens : StoredTokens
no_tokens = record { prompt_tokens = none; completion_tokens = none; total_tokens = none }

unfoldable pub call_of : Job → Bool → Locals → StoredTokens → Call
unfolding model_of
call_of j admitted l tokens = record {
  request_id = j.request_id;
  model = model_of j;
  streaming = false;
  started_at = j.started_at;
  completed_at = j.completed_at;
  outcome = l.outcome;
  prompt_tokens = tokens.prompt_tokens;
  completion_tokens = tokens.completion_tokens;
  total_tokens = tokens.total_tokens;
  queue_wait_ms = when admitted j.queue_wait;
  error_code = l.error_code;
  backend_latency_ms = when (admitted && l.timed) j.backend_latency;
  ttft_ms = none;
  stream_duration_ms = none;
  total_duration_ms = some j.total_duration;
  backend_id = j.backend_id;
}

-- The `except Exception` around `usage_service.record`, which only logs.
unfoldable pub recorded_or : List UsageRecord → Result (List UsageRecord) → List UsageRecord
recorded_or table (ok recorded) = recorded
recorded_or table (err e) = table

-- `bind` is what the database stores of a value in a column of whole numbers, or that it refuses it.
-- The commit binds the values of a new row, and a value that is refused leaves the table as it was.
module _ (bind : Json → Result (Option ℕ)) where
  -- internal_resp.usage, if there is a response
  unfoldable pub stored_tokens : Result ChatCompletionResponse → Result StoredTokens
  stored_tokens (ok r) = do
    prompt ← bind r.usage.prompt_tokens
    completion ← bind r.usage.completion_tokens
    total ← bind r.usage.total_tokens
    ok (record { prompt_tokens = prompt; completion_tokens = completion; total_tokens = total })
  stored_tokens (err e) = ok no_tokens

  -- `_non_streaming_completion` with a usage service whose database is available: what is raised or
  -- answered, after the record in the `finally`.
  unfoldable pub non_streaming_completion :
      Job
      → ApiKey
      → Client
      → List UsageRecord
      → Attempt
      → List UsageRecord × Result ChatCompletionResponse
  unfolding guarded call_of recorded_or stored_tokens
  non_streaming_completion j key client table a =
      let (admitted, l, r) = guarded a in
      (
        recorded_or table (
            stored_tokens r >>= λ tokens.
            ok (record_usage table (some key) (some client) (call_of j admitted l tokens))),
        r,
      )

-- How the body of `stream_generator` ends: after its sentinel, by an exception of a class, by
-- asyncio.CancelledError, by another exception, or by the GeneratorExit of `aclose()`.
pub data StreamEnd : Type 0 where
  finished : StreamEnd
  raises : ErrorClass → StreamEnd
  task_cancelled unexpected closed : StreamEnd

-- The locals of `stream_generator` that its handlers set; `stamped` if `stream_completed_ts` is.
pub record StreamLocals : Type 0 where
  pub final_outcome : Outcome
  pub final_error_code : Option String
  pub completed_normally : Bool
  pub stamped : Bool

abbrev pub stream_failed : Option String → StreamLocals
stream_failed code = record {
  final_outcome = failed;
  final_error_code = code;
  completed_normally = false;
  stamped = true;
}

-- The `except` clauses for exceptions of the program's classes, the last of which is for all.
unfoldable pub stream_handlers : ErrorClass → StreamLocals
stream_handlers backend_timeout = stream_failed (some "backend_timeout")
stream_handlers backend_protocol_error = stream_failed (some "backend_protocol_error")
stream_handlers backend_invalid_response = stream_failed (some "backend_invalid_response")
stream_handlers backend_unavailable = stream_failed (some "backend_unavailable")
stream_handlers _ = stream_failed none

unfoldable pub stream_locals : StreamEnd → StreamLocals
unfolding stream_handlers
stream_locals finished = record {
  final_outcome = completed;
  final_error_code = none;
  completed_normally = true;
  stamped = true;
}
stream_locals (raises c) = stream_handlers c
stream_locals task_cancelled = record (stream_failed none) { final_outcome = cancelled }
stream_locals unexpected = stream_failed none
stream_locals closed = record (stream_failed none) { stamped = false }

abbrev is_none : Option String → Bool
is_none none = true
is_none (some s) = false

-- The first statement of the `finally`.
unfoldable pub detect_disconnect : StreamLocals → StreamLocals
detect_disconnect l =
    if not l.completed_normally && same_outcome l.final_outcome failed && is_none l.final_error_code
    then record l { final_outcome = cancelled }
    else l

-- A stream: whether the slot was acquired, whether a chunk came, and how the body ended.
pub record StreamRun : Type 0 where
  pub admitted : Bool
  pub first_chunk : Bool
  pub ended : StreamEnd

unfoldable pub stream_call : Job → StreamRun → Call
unfolding stream_locals detect_disconnect model_of
stream_call j run =
    let l = detect_disconnect (stream_locals run.ended) in
    record {
      request_id = j.request_id;
      model = model_of j;
      streaming = true;
      started_at = j.started_at;
      completed_at = j.completed_at;
      outcome = l.final_outcome;
      prompt_tokens = none;
      completion_tokens = none;
      total_tokens = none;
      queue_wait_ms = when run.admitted j.queue_wait;
      error_code = l.final_error_code;
      backend_latency_ms = none;
      ttft_ms = when run.first_chunk j.ttft;
      stream_duration_ms = when (run.first_chunk && l.stamped) j.stream_duration;
      total_duration_ms = some j.total_duration;
      backend_id = j.backend_id;
    }

-- The `finally` of `stream_generator`, with a usage service whose database is available.
unfoldable pub stream_recorded :
    Job → ApiKey → Client → List UsageRecord → StreamRun → List UsageRecord
unfolding stream_call
stream_recorded j key client table run =
    record_usage table (some key) (some client) (stream_call j run)
