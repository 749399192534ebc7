-- ===== src/Usage/Records.antt =====
-- The rows of app/services/usage.py: how `record` builds one, and the tests that its queries make.
use syn.Common.{
  ℕ, ◌+◌, String, Bool, true, false, ◌&&◌, Option, none, some, List, [], ◌∷◌, ◌++◌, ltb, leb,
  str_eq, if◌then◌else◌,
}
use syn.Policy.{Limits}

-- The string constants of `Outcome`, which are all that the callers of `record` pass.
pub data Outcome : Type 0 where
  completed failed cancelled timed_out rejected : Outcome

unfoldable pub same_outcome : Outcome → Outcome → Bool
same_outcome completed completed = true
same_outcome failed failed = true
same_outcome cancelled cancelled = true
same_outcome timed_out timed_out = true
same_outcome rejected rejected = true
same_outcome _ _ = false

-- A row of the table of keys and one of the table of clients, as far as this service reads them;
-- their classes, in app/models, are not in the repository.
pub record ApiKey : Type 0 where
  pub id : String
  pub limits : Limits

pub record Client : Type 0 where
  pub id : String
  pub user_id : String
  pub limits : Limits

pub record UsageRecord : Type 0 where
  pub request_id : String
  pub user_id : Option String
  pub client_id : Option String
  pub api_key_id : Option String
  pub model : String
  pub streaming : ℕ
  pub started_at : ℕ
  pub completed_at : ℕ
  pub status : Outcome
  pub prompt_tokens : Option ℕ
  pub completion_tokens : Option ℕ
  pub total_tokens : Option ℕ
  pub queue_wait_ms : Option ℕ
  pub error_code : Option String
  pub backend_latency_ms : Option ℕ
  pub ttft_ms : Option ℕ
  pub stream_duration_ms : Option ℕ
  pub total_duration_ms : Option ℕ
  pub backend_id : Option String

unfoldable pub in_period : ℕ → ℕ → UsageRecord → Bool
in_period since until r = leb since r.started_at && ltb r.started_at until

-- column == value, which a NULL never passes
unfoldable pub column_is : String → Option String → Bool
column_is id none = false
column_is id (some x) = str_eq x id

-- The sum of a column over rows, where a NULL is passed over.
unfoldable pub sum_column : (UsageRecord → Option ℕ) → List UsageRecord → ℕ
sum_column column [] = 0
sum_column column (r ∷ rs) =
    let rest = sum_column column rs in elim (column r) [ none ↦ rest | some n ↦ n + rest ]

-- The arguments of `record` beside the key and the client, whose rows may be absent.
pub record Call : Type 0 where
  pub request_id : String
  pub model : String
  pub streaming : Bool
  pub started_at : ℕ
  pub completed_at : ℕ
  pub outcome : Outcome
  pub prompt_tokens : Option ℕ
  pub completion_tokens : Option ℕ
  pub total_tokens : Option ℕ
  pub queue_wait_ms : Option ℕ
  pub error_code : Option String
  pub backend_latency_ms : Option ℕ
  pub ttft_ms : Option ℕ
  pub stream_duration_ms : Option ℕ
  pub total_duration_ms : Option ℕ
  pub backend_id : Option String

-- The row that `record` builds.
unfoldable pub row : Option ApiKey → Option Client → Call → UsageRecord
row api_key client c = record {
  request_id = c.request_id;
  user_id = elim client [ none ↦ none | some cl ↦ some cl.user_id ];
  client_id = elim client [ none ↦ none | some cl ↦ some cl.id ];
  api_key_id = elim api_key [ none ↦ none | some k ↦ some k.id ];
  model = c.model;
  streaming = if c.streaming then 1 else 0;
  started_at = c.started_at;
  completed_at = c.completed_at;
  status = c.outcome;
  prompt_tokens = c.prompt_tokens;
  completion_tokens = c.completion_tokens;
  total_tokens = c.total_tokens;
  queue_wait_ms = c.queue_wait_ms;
  error_code = c.error_code;
  backend_latency_ms = c.backend_latency_ms;
  ttft_ms = c.ttft_ms;
  stream_duration_ms = c.stream_duration_ms;
  total_duration_ms = c.total_duration_ms;
  backend_id = c.backend_id;
}

-- `record`: the row is added and committed.
unfoldable pub record_usage :
    List UsageRecord → Option ApiKey → Option Client → Call → List UsageRecord
unfolding row
record_usage table api_key client c = table ++ row api_key client c ∷ []
