-- ===== src/Admission/Invariant.antt =====
-- The slots of app/core/admission.py are never oversubscribed and never lost.
use mathlib.Core.Option.{some-injective}
use syn.Common.{
  ℕ, ◌+◌, ◌-◌, ◌≤◌, ◌<◌, ◌≡◌, refl, ap, subst, sym, ◌∙◌, Bool, true, ◌&&◌, ◌||◌, not, some, List,
  [], ◌∷◌, arith, leb, is_empty, length, length-append, Bool-cases, ◌⊎◌, inl, inr,
}
use syn.Admission.Semaphore.{
  has_waiter, woken, blocked, open_slots, IsBusy, try_acquire, release-slots, try_acquire-slots,
  finish_acquire-slots, cancel_acquire-slots, release-IsBusy, try_acquire-IsBusy,
  finish_acquire-IsBusy, cancel_acquire-IsBusy, locked,
}
use syn.Admission.{
  System, Step, Reach, enters, resumes, proceeds, times_out, cancels_wait, cancels_block, releases,
  here, next, init, mem_task, drop_task, enter, resume, take_slot, queue_path, proceed, time_out,
  cancel_block, grant_next, freed, leave, release, cancel_wait,
}

-- The slots that are open, and those that running tasks hold, are all the slots; `_active` counts
-- the running tasks; the queue keeps its bound.
pub record Inv (max_active max_queue : ℕ) (s : System) : Type 0 where
  pub slots : open_slots s.sem + s.active ≡ max_active
  pub counted : s.active ≡ length s.running
  pub bounded : length s.queue ≤ max_queue
  pub same_bound : s.max_queue ≡ max_queue
  pub busy : IsBusy s.sem

pub length-drop_task :
    (t : ℕ) (xs : List ℕ) → mem_task t xs ≡ true → length (drop_task t xs) + 1 ≡ length xs
unfolding mem_task drop_task
length-drop_task t [] h = cc
length-drop_task t (x ∷ xs) h = ground (arith, length-drop_task t xs)

length-drop_task-le : (t : ℕ) (xs : List ℕ) → length (drop_task t xs) ≤ length xs
unfolding drop_task
length-drop_task-le t [] = omega arith
length-drop_task-le t (x ∷ xs) = ground (arith, length-drop_task-le t xs)

init-Inv : (m q timeout : ℕ) → Inv m q (init m q timeout)
unfolding init
init-Inv m q timeout = record {
  slots = omega arith;
  counted = refl;
  bounded = omega arith;
  same_bound = refl;
  busy = inr (inl refl);
}

module _ (m q : ℕ) where
  take_slot-Inv : (s : System) (t : ℕ) → Inv m q s → Inv m q (take_slot s t).0
  unfolding take_slot
  take_slot-Inv s t v = elim (Bool-cases (try_acquire s.sem t).1) [
    | inl e ↦
        rw (e, take_slot)
          (record {
            slots = ground (arith, try_acquire-slots s.sem t, e);
            counted = omega (arith, v.counted);
            bounded = v.bounded;
            same_bound = v.same_bound;
            busy = try_acquire-IsBusy s.sem t v.busy;
          })
    | inr e ↦
        rw (e, take_slot)
          (record {
            slots = ground (arith, try_acquire-slots s.sem t, e);
            counted = v.counted;
            bounded = v.bounded;
            same_bound = v.same_bound;
            busy = try_acquire-IsBusy s.sem t v.busy;
          })
  ]

  queue_path-Inv : (s : System) (t : ℕ) → Inv m q s → Inv m q (queue_path s t).0
  unfolding queue_path
  queue_path-Inv s t v = elim (Bool-cases (not (locked s.sem) && is_empty s.queue)) [
    | inl e ↦ rw (e, queue_path) (take_slot-Inv s t v)
    | inr e ↦
        rw (e, queue_path)
          (elim (Bool-cases (leb s.max_queue (length s.queue))) [
            | inl full ↦ rw full v
            | inr room ↦ rw room (record {
              slots = v.slots;
              counted = v.counted;
              bounded = ground (arith, length-append s.queue (t ∷ []), v.same_bound);
              same_bound = v.same_bound;
              busy = v.busy;
            })
          ])
  ]

  enter-Inv : (s : System) (t : ℕ) → Inv m q s → Inv m q (enter s t).0
  unfolding enter
  enter-Inv s t v = elim (Bool-cases (locked s.sem || not (is_empty s.queue))) [
    | inl e ↦ rw (e, enter) (queue_path-Inv s t v)
    | inr e ↦ rw (e, enter) (take_slot-Inv s t v)
  ]

  grant_next-Inv : (s : System) (es : List ℕ) → s.queue ≡ es → Inv m q s → Inv m q (grant_next s es)
  unfolding grant_next
  grant_next-Inv s [] e v = v
  grant_next-Inv s (x ∷ es) e v =
      let shorter : length es ≤ q = omega (arith, ap length e, v.bounded) in
      elim (Bool-cases (mem_task x s.waiting)) [
        | inl live ↦ rw live (record {
          slots = v.slots;
          counted = v.counted;
          bounded = shorter;
          same_bound = v.same_bound;
          busy = v.busy;
        })
        | inr gone ↦ rw gone (record {
          slots = v.slots;
          counted = v.counted;
          bounded = shorter;
          same_bound = v.same_bound;
          busy = v.busy;
        })
      ]

  proceed-Inv :
      (s : System) (t : ℕ)
      → has_waiter t true s.sem.waiters ≡ true
      → Inv m q s
      → Inv m q (proceed s t)
  unfolding proceed
  proceed-Inv s t h v = record {
    slots = omega (arith, finish_acquire-slots s.sem t h, v.slots);
    counted = omega (arith, v.counted);
    bounded = v.bounded;
    same_bound = v.same_bound;
    busy = finish_acquire-IsBusy s.sem t;
  }

  cancel_block-Inv :
      (s : System) (t : ℕ) (handed : Bool)
      → has_waiter t handed s.sem.waiters ≡ true
      → Inv m q s
      → Inv m q (cancel_block s t handed)
  unfolding cancel_block
  cancel_block-Inv s t handed h v = record {
    slots = omega (arith, cancel_acquire-slots s.sem t handed h, v.slots);
    counted = v.counted;
    bounded = v.bounded;
    same_bound = v.same_bound;
    busy = cancel_acquire-IsBusy s.sem t handed;
  }

  time_out-Inv : (s : System) (t : ℕ) → Inv m q s → Inv m q (time_out s t)
  unfolding time_out
  time_out-Inv s t v = record {
    slots = v.slots;
    counted = v.counted;
    bounded = omega (arith, length-drop_task-le t s.queue, v.bounded);
    same_bound = v.same_bound;
    busy = v.busy;
  }

freed-Inv : (m q : ℕ) (s : System) → 0 < m → Inv (m - 1) q s → Inv m q (freed s)
unfolding freed
freed-Inv m q s h v = record {
  slots = omega (arith, release-slots s.sem, v.slots);
  counted = v.counted;
  bounded = v.bounded;
  same_bound = v.same_bound;
  busy = release-IsBusy s.sem v.busy;
}

-- Between the two halves of `_release` one slot is missing.
leave-Inv :
    (m q : ℕ) (s : System) (t : ℕ)
    → mem_task t s.running ≡ true
    → Inv m q s
    → Inv (m - 1) q (leave s t)
unfolding leave
leave-Inv m q s t h v = record {
  slots = omega (arith, length-drop_task t s.running h, v.counted, v.slots);
  counted = omega (arith, length-drop_task t s.running h, v.counted);
  bounded = v.bounded;
  same_bound = v.same_bound;
  busy = v.busy;
}

-- A task that runs is counted, so the assertion of `_release` holds.
pub release-running :
    {m q : ℕ} (s : System) (t : ℕ)
    → mem_task t s.running ≡ true
    → Inv m q s
    → release s t ≡ some (freed (grant_next (leave s t) s.queue))
unfolding release
release-running s t h v = ground (arith, length-drop_task t s.running h, v.counted)

release-Inv :
    (m q : ℕ) (s u : System) (t : ℕ)
    → mem_task t s.running ≡ true
    → release s t ≡ some u
    → Inv m q s
    → Inv m q u
release-Inv m q s u t h e v =
    let left = leave-Inv m q s t h v in
    let handed = grant_next-Inv (m - 1) q (leave s t) s.queue (unfold leave in refl) left in
    let positive : 0 < m = omega (arith, length-drop_task t s.running h, v.counted, v.slots) in
    subst (Inv m q) (some-injective _ _ (sym (release-running s t h v) ∙ e))
      (freed-Inv m q (grant_next (leave s t) s.queue) positive handed)

Step-Inv : (m q : ℕ) {s u : System} → Step s u → Inv m q s → Inv m q u
Step-Inv m q {s} (enters t e) v = rw e (enter-Inv m q s t v)
Step-Inv m q {s} (resumes t h e) v = rw e (
    unfold resume in
    take_slot-Inv m q (record s { granted = drop_task t s.granted }) t
      (record {
        slots = v.slots;
        counted = v.counted;
        bounded = v.bounded;
        same_bound = v.same_bound;
        busy = v.busy;
      }))
Step-Inv m q {s} (proceeds t h e) v = rw e (proceed-Inv m q s t h v)
Step-Inv m q {s} (times_out t h e) v = rw e (time_out-Inv m q s t v)
Step-Inv m q {s} (cancels_wait t h e) v = rw e (
    unfold cancel_wait in
    record {
      slots = v.slots;
      counted = v.counted;
      bounded = v.bounded;
      same_bound = v.same_bound;
      busy = v.busy;
    })
Step-Inv m q {s} (cancels_block t handed h e) v = rw e (cancel_block-Inv m q s t handed h v)
Step-Inv m q {s} {u} (releases t h e) v = release-Inv m q s u t h e v

Reach-Inv : (m q : ℕ) {s u : System} → Reach s u → Inv m q s → Inv m q u
Reach-Inv m q here v = v
Reach-Inv m q (next r st) v = Step-Inv m q st (Reach-Inv m q r v)

-- Every state that a new controller can come to satisfies the invariant.
pub Reach-init-Inv : (m q timeout : ℕ) {s : System} → Reach (init m q timeout) s → Inv m q s
Reach-init-Inv m q timeout r = Reach-Inv m q r (init-Inv m q timeout)

-- Whatever the order of arrivals, grants, time-outs, cancellations and releases, at most
-- `max_active` requests run, `_active` is their number, and at most `max_queue` entries wait.
pub Reach-bounds :
    (m q timeout : ℕ) {s : System}
    → Reach (init m q timeout) s
    → (length s.running ≤ m) × (s.active ≡ length s.running) × (length s.queue ≤ q)
Reach-bounds m q timeout r =
    let v = Reach-init-Inv m q timeout r in omega (arith, v.slots, v.counted, v.bounded)

-- The assertion of `_release` never fails: in every state that a new controller can come to, each
-- running task can give its slot back.
pub release-total :
    (m q timeout : ℕ) {s : System} (t : ℕ)
    → Reach (init m q timeout) s
    → mem_task t s.running ≡ true
    → (u : System) × (release s t ≡ some u) × Reach (init m q timeout) u
release-total m q timeout {s} t r h =
    let e = release-running s t h (Reach-init-Inv m q timeout r) in
    (freed (grant_next (leave s t) s.queue), e, next r (releases t h e))

-- No slot is lost: in every state that a new controller can come to, once nothing runs and no
-- task has been handed a slot, all the slots are free, and no task is blocked if there are any.
pub slots_recover :
    (m q timeout : ℕ) {s : System}
    → Reach (init m q timeout) s
    → s.running ≡ []
    → woken s.sem.waiters ≡ 0
    → (s.sem.value ≡ m) × ((m ≡ 0) ⊎ (blocked s.sem.waiters ≡ 0))
slots_recover m q timeout {s} r idle none_handed =
    let v = Reach-init-Inv m q timeout r in
    let free : s.sem.value ≡ m = omega (arith, v.slots, v.counted, ap length idle) in
    (free, omega (arith, free, v.busy))
