-- ===== src/Chat/Streams.antt =====
-- What the streaming handler of app/api/chat.py records.
use syn.Common.{String, ◌≡◌, refl, sym, subst, ◌≢◌, ◌⊎◌, inl, inr, true, false, Option, none, some}
use syn.Errors.{ErrorClass, class_code, is_backend_unavailable}
use syn.Usage.{Outcome, completed, failed, cancelled, same_outcome}
use syn.Chat.{
  Job, StreamEnd, finished, raises, task_cancelled, unexpected, closed, StreamLocals, stream_failed,
  stream_handlers, stream_locals, detect_disconnect, StreamRun, stream_call,
}
use syn.Chat.Handlers.{handlers-cases}

-- The three ways in which a stream is recorded, with an outcome and a code.
abbrev pub StreamRecorded : StreamEnd → Outcome → Option String → Type 0
StreamRecorded ended outcome code =
    ((ended ≡ finished) × (outcome ≡ completed) × (code ≡ none))
    ⊎ ((cls : ErrorClass) × (ended ≡ raises cls)
        × (is_backend_unavailable cls ≡ true)
        × (outcome ≡ failed)
        × (code ≡ some (class_code cls)))
    ⊎ ((ended ≢ finished)
        × ((cls : ErrorClass) → ended ≡ raises cls → is_backend_unavailable cls ≡ false)
        × (outcome ≡ cancelled)
        × (code ≡ none))

abbrev LocalsRecorded : StreamEnd → StreamLocals → Type 0
LocalsRecorded ended l =
    StreamRecorded ended (detect_disconnect l).final_outcome (detect_disconnect l).final_error_code

module _ (cls : ErrorClass) where
  named-Recorded :
      is_backend_unavailable cls ≡ true
      → stream_handlers cls ≡ stream_failed (some (class_code cls))
      → LocalsRecorded (raises cls) (stream_handlers cls)
  unfolding detect_disconnect same_outcome
  named-Recorded u s =
      subst (LocalsRecorded (raises cls)) (sym s) (inr (inl (cls, refl, u, refl, refl)))

  passed-Recorded :
      is_backend_unavailable cls ≡ false
      → stream_handlers cls ≡ stream_failed none
      → LocalsRecorded (raises cls) (stream_handlers cls)
  unfolding detect_disconnect same_outcome
  passed-Recorded u s =
      subst (LocalsRecorded (raises cls)) (sym s) (inr (inr ((λ e. cc), (λ c e. cc), refl, refl)))

  raises-Recorded : LocalsRecorded (raises cls) (stream_handlers cls)
  unfolding is_backend_unavailable stream_handlers
  raises-Recorded = elim (handlers-cases cls) [
    | inl (u, s, _, _, _) ↦ named-Recorded u s
    | inr (inl e) ↦ passed-Recorded (rw e refl) (rw e refl)
    | inr (inr (inl e)) ↦ passed-Recorded (rw e refl) (rw e refl)
    | inr (inr (inr (u, s, _, _))) ↦ passed-Recorded u s
  ]

locals-Recorded : (ended : StreamEnd) → LocalsRecorded ended (stream_locals ended)
unfolding stream_locals detect_disconnect same_outcome
locals-Recorded finished = inl (refl, refl, refl)
locals-Recorded (raises cls) = raises-Recorded cls
locals-Recorded task_cancelled = inr (inr ((λ e. cc), (λ c e. cc), refl, refl))
locals-Recorded unexpected = inr (inr ((λ e. cc), (λ c e. cc), refl, refl))
locals-Recorded closed = inr (inr ((λ e. cc), (λ c e. cc), refl, refl))

-- A stream that ends with its sentinel is recorded as completed. One that an error of the backend
-- ends is recorded as failed, with the code of the error's class. Every other one is recorded as
-- cancelled, with no code: also one that the admission refuses, or that another exception ends.
pub stream_call-Recorded :
    (j : Job) (run : StreamRun)
    → StreamRecorded run.ended (stream_call j run).outcome (stream_call j run).error_code
unfolding stream_call
stream_call-Recorded j run = locals-Recorded run.ended
