-- ===== src/Admission/Wakeups.antt =====
-- Grants that are lost in app/core/admission.py: a cancelled waiter leaves its entry behind.
use syn.Common.{ℕ, ◌<◌, ◌≡◌, Bool, true, false, some, List, [], ◌∷◌, ◌++◌, arith, ◌⊎◌, inl, ◌≢◌}
use syn.Admission.Semaphore.{Waiter, has_waiter, wake_next, release as release_slot}
use syn.Admission.{
  System, Step, enters, resumes, proceeds, times_out, cancels_wait, cancels_block, releases,
  mem_task, drop_task, enter, queue_path, release, time_out, cancel_wait,
}

-- A slot is free and requests queue, but nothing runs and nobody has been granted a turn.
pub record IsStalled (s : System) : Type 0 where
  pub idle : s.running ≡ []
  pub none_granted : s.granted ≡ []
  pub none_blocked : s.sem.waiters ≡ []
  pub free : 0 < s.sem.value
  pub queued : s.queue ≢ []

-- When the last running request ends and the oldest entry is that of a cancelled waiter, the grant
-- is lost: the controller is stalled, with the entries behind it still in the queue.
pub release-IsStalled :
    (s u : System) (t d e : ℕ) (rest : List ℕ)
    → s.running ≡ t ∷ []
    → s.granted ≡ []
    → s.sem.waiters ≡ []
    → s.queue ≡ d ∷ e ∷ rest
    → mem_task d s.waiting ≡ false
    → release s t ≡ some u
    → IsStalled u × (u.queue ≡ e ∷ rest)
unfolding release release_slot wake_next drop_task
release-IsStalled s u t d e rest r g w q gone h = ground arith

append-ne-nil : (xs : List ℕ) (t : ℕ) → xs ++ t ∷ [] ≢ []
append-ne-nil [] t e = cc
append-ne-nil (x ∷ xs) t e = cc

IsStalled-arrival : (s : System) (t : ℕ) → IsStalled s → IsStalled (enter s t).0
unfolding enter queue_path
IsStalled-arrival s t v = ground (arith, append-ne-nil s.queue t)

no_task : (t : ℕ) (xs : List ℕ) → xs ≡ [] → mem_task t xs ≡ true → ⊥
unfolding mem_task
no_task t xs e h = ground arith

no_waiter : (t : ℕ) (d : Bool) (ws : List Waiter) → ws ≡ [] → has_waiter t d ws ≡ true → ⊥
unfolding has_waiter
no_waiter t d ws e h = ground arith

IsStalled-time_out :
    (s : System) (t : ℕ) {u : System}
    → IsStalled s
    → u ≡ time_out s t
    → IsStalled u ⊎ (u.queue ≡ [])
unfolding time_out drop_task
IsStalled-time_out s t v e = ground arith

IsStalled-cancel :
    (s : System) (t : ℕ) {u : System} → IsStalled s → u ≡ cancel_wait s t → IsStalled u
unfolding cancel_wait drop_task
IsStalled-cancel s t v e = ground arith

-- A stalled controller stays stalled, whatever arrives, is cancelled or is resumed, until its queue
-- is empty; only a time-out can remove an entry.
pub Step-IsStalled : {s u : System} → Step s u → IsStalled s → IsStalled u ⊎ (u.queue ≡ [])
Step-IsStalled {s} (enters t e) v = inl (rw e (IsStalled-arrival s t v))
Step-IsStalled {s} (resumes t h e) v = absurd (no_task t s.granted v.none_granted h)
Step-IsStalled {s} (proceeds t h e) v = absurd (no_waiter t true s.sem.waiters v.none_blocked h)
Step-IsStalled {s} (times_out t h e) v = IsStalled-time_out s t v e
Step-IsStalled {s} (cancels_wait t h e) v = inl (IsStalled-cancel s t v e)
Step-IsStalled {s} (cancels_block t handed h e) v =
    absurd (no_waiter t handed s.sem.waiters v.none_blocked h)
Step-IsStalled {s} (releases t h e) v = absurd (no_task t s.running v.idle h)
