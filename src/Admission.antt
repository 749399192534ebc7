-- ===== src/Admission.antt =====
-- app/core/admission.py: the admission controller. Each operation runs without a suspension from
-- one `await` that waits to the next, since nothing is awaited while the lock is held; so the lock
-- is never contended, and an operation of the model is one such stretch of code.
-- The requests that wait, that have been granted a turn, and that run are lists of task numbers.
pub mod Semaphore
pub mod Invariant
pub mod Queueing
pub mod Wakeups
pub mod Progress
mod Tests
use syn.Common.{
  ℕ, zero, suc, ◌+◌, ◌-◌, ◌≡◌, Bool, true, false, ◌&&◌, ◌||◌, not, Option, none, some, List, [],
  ◌∷◌, ◌++◌, ltb, leb, ◌==◌, is_empty, length, if◌then◌else◌,
}
use Semaphore.{
  locked, try_acquire, finish_acquire, cancel_acquire, has_waiter, release as release_slot,
}

pub record Controller : Type 0 where
  pub max_active : ℕ
  pub max_queue : ℕ
  pub queue_timeout : ℕ
  pub sem : Semaphore.Semaphore
  -- The tasks whose entries wait, oldest first.
  pub queue : List ℕ
  pub active : ℕ

pub record AdmissionStatus : Type 0 where
  pub active : ℕ
  pub max_active : ℕ
  pub queued : ℕ
  pub max_queue : ℕ
  pub queue_timeout_seconds : ℕ

unfoldable pub status : Controller → AdmissionStatus
status c = record {
  active = c.active;
  max_active = c.max_active;
  queued = length c.queue;
  max_queue = c.max_queue;
  queue_timeout_seconds = c.queue_timeout;
}

-- The controller with the tasks that are inside it: those that wait for their event, those whose
-- event is set, and those that hold a slot. A task that blocks on the semaphore is in `sem`.
pub record System : Type 0 where
  pub ctl : Controller
  pub open ctl use *
  pub waiting : List ℕ
  pub granted : List ℕ
  pub running : List ℕ

unfoldable pub init : ℕ → ℕ → ℕ → System
init max_active max_queue queue_timeout = record {
  ctl = record {
    max_active = max_active;
    max_queue = max_queue;
    queue_timeout = queue_timeout;
    sem = record { value = max_active; waiters = [] };
    queue = [];
    active = 0;
  };
  waiting = [];
  granted = [];
  running = [];
}

unfoldable pub mem_task : ℕ → List ℕ → Bool
mem_task t [] = false
mem_task t (x ∷ xs) = if x == t then true else mem_task t xs

-- list.remove, which the code lets fail silently
unfoldable pub drop_task : ℕ → List ℕ → List ℕ
drop_task t [] = []
drop_task t (x ∷ xs) = if x == t then xs else x ∷ drop_task t xs

-- How a stretch of `acquire` ends: with a slot, blocked on the semaphore, in the queue, or with
-- QueueFullError.
pub data Outcome : Type 0 where
  runs blocks queues queue_full : Outcome

-- A task that holds a slot is counted, and its body runs.
unfoldable pub start : System → Semaphore.Semaphore → ℕ → System
start s sem t = record s {
  ctl = record s.ctl { sem = sem; active = s.active + 1 };
  running = t ∷ s.running;
}

-- await self._sem.acquire(), and what follows it if that does not block
unfoldable pub take_slot : System → ℕ → System × Outcome
unfolding start
take_slot s t =
    let (sem, immediate) = try_acquire s.sem t in
    if immediate
    then (start s sem t, runs)
    else (record s { ctl = record s.ctl { sem = sem } }, blocks)

-- The queue path of `acquire`, with its second look at the slots.
unfoldable pub queue_path : System → ℕ → System × Outcome
unfolding take_slot
queue_path s t =
    if not (locked s.sem) && is_empty s.queue
    then take_slot s t
    else if leb s.max_queue (length s.queue)
    then (s, queue_full)
    else (
      record s { ctl = record s.ctl { queue = s.queue ++ t ∷ [] }; waiting = t ∷ s.waiting },
      queues,
    )

-- acquire(), up to its first suspension
unfoldable pub enter : System → ℕ → System × Outcome
unfolding queue_path
enter s t = if locked s.sem || not (is_empty s.queue) then queue_path s t else take_slot s t

-- acquire(), from the event that grants the task its turn
unfoldable pub resume : System → ℕ → System × Outcome
unfolding take_slot
resume s t = take_slot (record s { granted = drop_task t s.granted }) t

-- acquire(), from the semaphore that hands the task a slot
unfoldable pub proceed : System → ℕ → System
unfolding start
proceed s t = start s (finish_acquire s.sem t) t

-- QueueTimeoutError: `_remove_queued_entry`. The event may have been set just before.
unfoldable pub time_out : System → ℕ → System
time_out s t = record s {
  ctl = record s.ctl { queue = drop_task t s.queue };
  waiting = drop_task t s.waiting;
  granted = drop_task t s.granted;
}

-- The task is cancelled while it waits for its event: nothing of the controller is touched.
unfoldable pub cancel_wait : System → ℕ → System
cancel_wait s t = record s { waiting = drop_task t s.waiting; granted = drop_task t s.granted }

-- The task is cancelled while it blocks on the semaphore; `handed` if it had been given a slot.
unfoldable pub cancel_block : System → ℕ → Bool → System
cancel_block s t handed = record s { ctl = record s.ctl { sem = cancel_acquire s.sem t handed } }

-- Grant the turn to the oldest entry; its task takes notice if it still waits.
unfoldable pub grant_next : System → List ℕ → System
grant_next s [] = s
grant_next s (e ∷ rest) =
    if mem_task e s.waiting
    then record s {
      ctl = record s.ctl { queue = rest };
      waiting = drop_task e s.waiting;
      granted = s.granted ++ e ∷ [];
    }
    else record s { ctl = record s.ctl { queue = rest } }

unfoldable pub freed : System → System
freed s = record s { ctl = record s.ctl { sem = release_slot s.sem } }

-- The task holds its slot no longer, and is not counted.
unfoldable pub leave : System → ℕ → System
leave s t = record s {
  ctl = record s.ctl { active = s.active - 1 };
  running = drop_task t s.running;
}

-- _release(), for a task whose body has ended in any way; `none` is the assertion's failure.
unfoldable pub release : System → ℕ → Option System
unfolding grant_next freed leave
release s t = if s.active == 0 then none else some (freed (grant_next (leave s t) s.queue))

-- What may happen next, in any order that the event loop and the clients choose.
pub data Step (s u : System) : Type 0 where
  enters : (t : ℕ) → u ≡ (enter s t).0 → Step s u
  resumes : (t : ℕ) → mem_task t s.granted ≡ true → u ≡ (resume s t).0 → Step s u
  proceeds : (t : ℕ) → has_waiter t true s.sem.waiters ≡ true → u ≡ proceed s t → Step s u
  times_out :
      (t : ℕ) → mem_task t s.waiting || mem_task t s.granted ≡ true → u ≡ time_out s t → Step s u
  cancels_wait :
      (t : ℕ) → mem_task t s.waiting || mem_task t s.granted ≡ true → u ≡ cancel_wait s t → Step s u
  cancels_block :
      (t : ℕ) (handed : Bool)
      → has_waiter t handed s.sem.waiters ≡ true
      → u ≡ cancel_block s t handed
      → Step s u
  releases : (t : ℕ) → mem_task t s.running ≡ true → release s t ≡ some u → Step s u

pub data Reach (s : System) : System → Type 0 where
  here : Reach s s
  next : {u v : System} → Reach s u → Step u v → Reach s v
