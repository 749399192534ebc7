-- ===== src/Admission/Semaphore.antt =====
-- asyncio.Semaphore as app/core/admission.py uses it: a counter, and the futures of the tasks that
-- block on it, oldest first. A future that a release has resolved stays until its task runs.
use syn.Common.{
  ℕ, zero, suc, ◌+◌, ◌-◌, ◌<◌, ◌≡◌, refl, Bool, true, false, ◌||◌, not, List, [], ◌∷◌, ◌++◌, arith,
  ◌==◌, is_empty, if◌then◌else◌, count_if, count_if-append, ◌⊎◌, inl,
}

pub record Waiter : Type 0 where
  pub task : ℕ
  pub done : Bool

pub record Semaphore : Type 0 where
  pub value : ℕ
  pub waiters : List Waiter

-- Semaphore.locked()
unfoldable pub locked : Semaphore → Bool
locked s = s.value == 0 || not (is_empty s.waiters)

-- The futures that are resolved, and those that are not.
abbrev pub woken : List Waiter → ℕ
woken = count_if (λ w. w.done)

abbrev pub blocked : List Waiter → ℕ
blocked = count_if (λ w. not w.done)

-- Resolve the oldest pending futures, as long as the counter allows: `_wake_up_next` while it is
-- positive.
unfoldable pub wake : ℕ → List Waiter → Semaphore
wake v [] = record { value = v; waiters = [] }
wake zero (w ∷ ws) = record { value = 0; waiters = w ∷ ws }
wake (suc v) (w ∷ ws) =
    if w.done
    then (let s = wake (suc v) ws in record s { waiters = w ∷ s.waiters })
    else (let s = wake v ws in record s { waiters = record w { done = true } ∷ s.waiters })

-- `_wake_up_next`: resolve the oldest pending future, if there is one, and take its slot.
unfoldable pub wake_next : ℕ → List Waiter → Semaphore
wake_next v [] = record { value = v; waiters = [] }
wake_next v (w ∷ ws) =
    let s = wake_next v ws in
    if w.done
    then record s { waiters = w ∷ s.waiters }
    else record { value = v - 1; waiters = record w { done = true } ∷ ws }

-- Semaphore.release()
unfoldable pub release : Semaphore → Semaphore
release s = wake_next (s.value + 1) s.waiters

-- Semaphore.acquire() up to its suspension: a free slot is taken, or the task's future is queued.
unfoldable pub try_acquire : Semaphore → ℕ → Semaphore × Bool
try_acquire s t =
    if locked s
    then (record s { waiters = s.waiters ++ record { task = t; done = false } ∷ [] }, false)
    else (record s { value = s.value - 1 }, true)

-- Whether the task's future is there, resolved or pending.
unfoldable pub has_waiter : ℕ → Bool → List Waiter → Bool
has_waiter t d [] = false
has_waiter t true (w ∷ ws) =
    if w.task == t then w.done || has_waiter t true ws else has_waiter t true ws
has_waiter t false (w ∷ ws) =
    if w.task == t then not w.done || has_waiter t false ws else has_waiter t false ws

-- Remove the task's future of that kind.
unfoldable pub drop_waiter : ℕ → Bool → List Waiter → List Waiter
drop_waiter t d [] = []
drop_waiter t true (w ∷ ws) =
    let rest = w ∷ drop_waiter t true ws in
    if w.task == t then (if w.done then ws else rest) else rest
drop_waiter t false (w ∷ ws) =
    let rest = w ∷ drop_waiter t false ws in
    if w.task == t then (if w.done then rest else ws) else rest

-- Semaphore.acquire() after its suspension: the resolved future goes, and others may be woken.
unfoldable pub finish_acquire : Semaphore → ℕ → Semaphore
finish_acquire s t = wake s.value (drop_waiter t true s.waiters)

-- The same when the task is cancelled: a slot that it was given goes back.
unfoldable pub cancel_acquire : Semaphore → ℕ → Bool → Semaphore
cancel_acquire s t true = wake (s.value + 1) (drop_waiter t true s.waiters)
cancel_acquire s t false = wake s.value (drop_waiter t false s.waiters)

-- The slots that are free or on their way to a task.
abbrev pub open_slots : Semaphore → ℕ
open_slots s = s.value + woken s.waiters

-- No slot is free while a task is blocked, unless a woken task, which wakes others, is on its way.
abbrev pub IsBusy : Semaphore → Type 0
IsBusy s = (s.value ≡ 0) ⊎ (blocked s.waiters ≡ 0) ⊎ (0 < woken s.waiters)

wake-slots : (v : ℕ) (ws : List Waiter) → open_slots (wake v ws) ≡ v + woken ws
unfolding wake
wake-slots v [] = ground arith
wake-slots zero (w ∷ ws) = refl
wake-slots (suc v) (w ∷ ws) = ground (arith, wake-slots (suc v) ws, wake-slots v ws)

wake-IsBusy : (v : ℕ) (ws : List Waiter) → IsBusy (wake v ws)
unfolding wake
wake-IsBusy v [] = ground arith
wake-IsBusy zero (w ∷ ws) = inl refl
wake-IsBusy (suc v) (w ∷ ws) = ground (arith, wake-IsBusy (suc v) ws, wake-IsBusy v ws)

wake_next-slots : (v : ℕ) (ws : List Waiter) → 0 < v → open_slots (wake_next v ws) ≡ v + woken ws
unfolding wake_next
wake_next-slots v [] h = ground arith
wake_next-slots v (w ∷ ws) h = ground (arith, wake_next-slots v ws)

wake_next-IsBusy :
    (v : ℕ) (ws : List Waiter)
    → (v ≡ 1) ⊎ (blocked ws ≡ 0) ⊎ (0 < woken ws)
    → IsBusy (wake_next v ws)
unfolding wake_next
wake_next-IsBusy v [] h = ground arith
wake_next-IsBusy v (w ∷ ws) h = ground (arith, wake_next-IsBusy v ws)

drop_waiter-woken :
    (t : ℕ) (ws : List Waiter)
    → has_waiter t true ws ≡ true
    → woken (drop_waiter t true ws) + 1 ≡ woken ws
unfolding has_waiter drop_waiter
drop_waiter-woken t [] h = cc
drop_waiter-woken t (w ∷ ws) h = ground (arith, drop_waiter-woken t ws)

drop_waiter-pending : (t : ℕ) (ws : List Waiter) → woken (drop_waiter t false ws) ≡ woken ws
unfolding drop_waiter
drop_waiter-pending t [] = refl
drop_waiter-pending t (w ∷ ws) = ground (arith, drop_waiter-pending t ws)

-- A release opens one more slot, whoever it goes to.
pub release-slots : (s : Semaphore) → open_slots (release s) ≡ open_slots s + 1
unfolding release
release-slots s = omega (arith, wake_next-slots (s.value + 1) s.waiters (omega arith))

pub release-IsBusy : (s : Semaphore) → IsBusy s → IsBusy (release s)
unfolding release
release-IsBusy s h = wake_next-IsBusy (s.value + 1) s.waiters (ground arith)

-- An acquisition takes a slot, or leaves them all and blocks.
pub try_acquire-slots :
    (s : Semaphore) (t : ℕ)
    → open_slots (try_acquire s t).0 + (if (try_acquire s t).1 then 1 else 0) ≡ open_slots s
unfolding try_acquire locked
try_acquire-slots s t = ground (
  arith,
  count_if-append (λ (w : Waiter). w.done) s.waiters (record { task = t; done = false } ∷ []),
)

-- A list with entries has a pending or a resolved one.
all_counted : (ws : List Waiter) → is_empty ws ≡ false → 0 < blocked ws + woken ws
all_counted [] h = cc
all_counted (w ∷ ws) h = ground arith

pub try_acquire-IsBusy : (s : Semaphore) (t : ℕ) → IsBusy s → IsBusy (try_acquire s t).0
unfolding try_acquire locked
try_acquire-IsBusy s t h = ground (
  arith,
  count_if-append (λ (w : Waiter). w.done) s.waiters (record { task = t; done = false } ∷ []),
  count_if-append (λ (w : Waiter). not w.done) s.waiters (record { task = t; done = false } ∷ []),
  all_counted s.waiters,
)

pub finish_acquire-slots :
    (s : Semaphore) (t : ℕ)
    → has_waiter t true s.waiters ≡ true
    → open_slots (finish_acquire s t) + 1 ≡ open_slots s
unfolding finish_acquire
finish_acquire-slots s t h =
    omega
      (arith, wake-slots s.value (drop_waiter t true s.waiters), drop_waiter-woken t s.waiters h)

pub finish_acquire-IsBusy : (s : Semaphore) (t : ℕ) → IsBusy (finish_acquire s t)
unfolding finish_acquire
finish_acquire-IsBusy s t = wake-IsBusy s.value (drop_waiter t true s.waiters)

-- A cancelled acquisition leaves as many slots open as there were.
pub cancel_acquire-slots :
    (s : Semaphore) (t : ℕ) (d : Bool)
    → has_waiter t d s.waiters ≡ true
    → open_slots (cancel_acquire s t d) ≡ open_slots s
unfolding cancel_acquire
cancel_acquire-slots s t true h = omega (
  arith,
  wake-slots (s.value + 1) (drop_waiter t true s.waiters),
  drop_waiter-woken t s.waiters h,
)
cancel_acquire-slots s t false h =
    omega
      (arith, wake-slots s.value (drop_waiter t false s.waiters), drop_waiter-pending t s.waiters)

pub cancel_acquire-IsBusy : (s : Semaphore) (t : ℕ) (d : Bool) → IsBusy (cancel_acquire s t d)
unfolding cancel_acquire
cancel_acquire-IsBusy s t true = wake-IsBusy (s.value + 1) (drop_waiter t true s.waiters)
cancel_acquire-IsBusy s t false = wake-IsBusy s.value (drop_waiter t false s.waiters)
