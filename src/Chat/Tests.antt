-- ===== src/Chat/Tests.antt =====
-- Instances of the theorems about app/api/chat.py's handlers.
use syn.Common.{ℕ, Option, List, refl, false, none, some, []}
use syn.Common.Int.{ℤ, pos}
use syn.Common.Json.{Json, null, num}
use syn.Errors.{make, queue_full, Exn, gateway, other, Result, ok, err}
use syn.Usage.{UsageRecord, ApiKey, Client}
use syn.Policy.{Limits}
use syn.Chat.{Job, refused, StreamRun, raises, stream_call}
use syn.Chat.Recording.{EndsAs, answer-EndsAs}
use syn.Chat.Response.{ApiResponse, answer}
use syn.Chat.Streams.{StreamRecorded, stream_call-Recorded}

abbrev pub no_limits : Limits
no_limits = record { requests_per_minute = none; requests_per_day = none; tokens_per_day = none }

abbrev pub key : ApiKey
key = record { id = "k"; limits = no_limits }

abbrev pub client : Client
client = record { id = "c"; user_id = "u"; limits = no_limits }

abbrev pub job : Job
job = record {
  request_id = "r";
  canonical_model = "m";
  request_model = "upstream";
  backend_id = some "b";
  started_at = 10;
  completed_at = 20;
  queue_wait = 0;
  backend_latency = 0;
  ttft = 0;
  stream_duration = 0;
  total_duration = 10;
}

-- What the schemas take for a whole number, and what a column of them stores.
abbrev pub int_field : Json → Result ℤ
int_field (num n) = ok (pos n)
int_field _ = err other

abbrev pub bind : Json → Result (Option ℕ)
bind null = ok none
bind (num n) = ok (some n)
bind _ = err other

abbrev full : Exn
full = gateway (make queue_full none none none)

-- The table of a request that the full queue refuses.
abbrev refused_answer : List UsageRecord × Result ApiResponse
refused_answer = answer int_field bind "chatcmpl-0" 9 job key client [] (refused full)

answer-EndsAs_example : EndsAs int_field bind "chatcmpl-0" 9 job (refused full) [] refused_answer
unfolding make
answer-EndsAs_example =
    answer-EndsAs int_field bind "chatcmpl-0" 9 job key client [] (refused full) refl

-- A stream that the full queue refuses.
abbrev refused_stream : StreamRun
refused_stream = record { admitted = false; first_chunk = false; ended = raises queue_full }

stream_call-Recorded_example :
    StreamRecorded
      (raises queue_full)
      (stream_call job refused_stream).outcome
      (stream_call job refused_stream).error_code
stream_call-Recorded_example = stream_call-Recorded job refused_stream
