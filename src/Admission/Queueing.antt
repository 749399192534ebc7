-- ===== src/Admission/Queueing.antt =====
-- Who waits, who is refused and who is next in app/core/admission.py.
use syn.Common.{
  ℕ, ◌+◌, ◌≤◌, ◌<◌, ◌≡◌, refl, true, false, ◌&&◌, ◌||◌, not, some, List, [], ◌∷◌, ◌++◌, arith, leb,
  is_empty, length, Bool-cases, inl, inr,
}
use syn.Admission.Semaphore.{locked, try_acquire}
use syn.Admission.{
  System, Outcome, runs, blocks, queues, queue_full, mem_task, drop_task, enter, take_slot,
  queue_path, start, release,
}

-- There is a free slot that nobody waits for, and nobody queues.
abbrev pub IsOpen : System → Type 0
IsOpen s = (0 < s.sem.value) × (s.sem.waiters ≡ []) × (s.queue ≡ [])

-- The three ways for a request to arrive.
abbrev pub Arrival : System → ℕ → System × Outcome → Type 0
Arrival s t (u, runs) =
    IsOpen s
    × (u.running ≡ t ∷ s.running)
    × (u.active ≡ s.active + 1)
    × (u.sem.value + 1 ≡ s.sem.value)
    × (u.queue ≡ s.queue)
Arrival s t (u, queues) =
    ¬ (IsOpen s)
    × (length s.queue < s.max_queue)
    × (u.queue ≡ s.queue ++ t ∷ [])
    × (u.waiting ≡ t ∷ s.waiting)
    × (u.running ≡ s.running)
    × (u.sem ≡ s.sem)
Arrival s t (u, queue_full) = ¬ (IsOpen s) × (s.max_queue ≤ length s.queue) × (u ≡ s)
Arrival s t (u, blocks) = ⊥

enter-open :
    (s : System) (t : ℕ) → locked s.sem ≡ false → s.queue ≡ [] → Arrival s t (take_slot s t)
unfolding take_slot try_acquire locked start
enter-open s t free nobody = ground arith

not-IsOpen : (s : System) → locked s.sem || not (is_empty s.queue) ≡ true → ¬ (IsOpen s)
unfolding locked
not-IsOpen s closed (free, idle, nobody) = ground arith

queue_path-Arrival :
    (s : System) (t : ℕ)
    → locked s.sem || not (is_empty s.queue) ≡ true
    → Arrival s t (queue_path s t)
unfolding queue_path
queue_path-Arrival s t closed = elim (Bool-cases (leb s.max_queue (length s.queue))) [
  | inl full ↦ rw (skipped, full, queue_path) (not-IsOpen s closed, ground (arith, full), refl)
  | inr room ↦
      rw (skipped, room, queue_path)
        (not-IsOpen s closed, ground (arith, room), refl, refl, refl, refl)
]
  where
    skipped : not (locked s.sem) && is_empty s.queue ≡ false
    skipped = ground (arith, closed)

-- A request that arrives runs at once exactly if a slot is free and nobody waits; else it goes to
-- the end of the queue, or, exactly if the queue is at its bound, it is refused and changes nothing.
pub enter-Arrival : (s : System) (t : ℕ) → Arrival s t (enter s t)
unfolding enter
enter-Arrival s t = elim (Bool-cases (locked s.sem || not (is_empty s.queue))) [
  | inl closed ↦ rw (closed, enter) (queue_path-Arrival s t closed)
  | inr free ↦ rw (free, enter) (enter-open s t (ground (arith, free)) (ground (arith, free)))
]

-- The oldest waiter is next: when a body ends, the entry at the head of the queue leaves it, and if
-- its task still waits, that task is granted the turn. The others keep their places.
pub release_serves_oldest :
    (s u : System) (t e : ℕ) (rest : List ℕ)
    → s.queue ≡ e ∷ rest
    → mem_task e s.waiting ≡ true
    → release s t ≡ some u
    → (u.queue ≡ rest) × (u.granted ≡ s.granted ++ e ∷ []) × (u.waiting ≡ drop_task e s.waiting)
unfolding release
release_serves_oldest s u t e rest q live h = ground arith
