-- ===== src/Admission/Progress.antt =====
-- Waiting in app/core/admission.py comes to an end: what each step does to an entry of the queue.
use mathlib.Core.Option.{some-injective}
use syn.Common.{
  ℕ, ◌+◌, ◌-◌, ◌≤◌, ◌<◌, ◌≡◌, refl, subst, ◌⊎◌, inl, inr, true, false, ◌&&◌, ◌||◌, not, some, List,
  [], ◌∷◌, ◌++◌, arith, leb, ◌==◌, is_empty, length, if◌then◌else◌, Bool-cases,
}
use syn.Admission.Semaphore.{locked, try_acquire}
use syn.Admission.{
  System, Step, Reach, enters, resumes, proceeds, times_out, cancels_wait, cancels_block, releases,
  here, next, mem_task, drop_task, enter, resume, take_slot, queue_path, start, proceed, time_out,
  cancel_wait, cancel_block, grant_next, freed, leave, release,
}

-- How many entries come before a task's.
unfoldable pub ahead_of : ℕ → List ℕ → ℕ
ahead_of e [] = 0
ahead_of e (x ∷ xs) = let rest = ahead_of e xs in if x == e then 0 else rest + 1

-- How many requests give their slot back.
unfoldable pub releases_in : {s u : System} → Reach s u → ℕ
releases_in here = 0
releases_in (next r (releases t h e)) = releases_in r + 1
releases_in (next r (enters t e)) = releases_in r
releases_in (next r (resumes t h e)) = releases_in r
releases_in (next r (proceeds t h e)) = releases_in r
releases_in (next r (times_out t h e)) = releases_in r
releases_in (next r (cancels_wait t h e)) = releases_in r
releases_in (next r (cancels_block t d h e)) = releases_in r

-- The step is neither the time-out nor the cancellation of the task's wait.
abbrev pub IsPatient : ℕ → {s u : System} → Step s u → Type 0
IsPatient e (times_out t h p) = t == e ≡ false
IsPatient e (cancels_wait t h p) = t == e ≡ false
IsPatient e (enters t p) = Unit
IsPatient e (resumes t h p) = Unit
IsPatient e (proceeds t h p) = Unit
IsPatient e (cancels_block t d h p) = Unit
IsPatient e (releases t h p) = Unit

abbrev pub KeepsWaiting : ℕ → {s u : System} → Reach s u → Type 0
KeepsWaiting e here = Unit
KeepsWaiting e (next r st) = KeepsWaiting e r × IsPatient e st

-- The task is granted its turn, at some moment.
abbrev pub GetsTurn : ℕ → {s u : System} → Reach s u → Type 0
GetsTurn e {u} here = mem_task e u.granted ≡ true
GetsTurn e {u} (next r st) = GetsTurn e r ⊎ (mem_task e u.granted ≡ true)

-- The task waits for its event, with at most n entries before its own.
pub record IsWaiting (e n : ℕ) (s : System) : Type 0 where
  pub queued : mem_task e s.queue ≡ true
  pub ahead : ahead_of e s.queue ≤ n
  pub waits : mem_task e s.waiting ≡ true

mem-append : (e t : ℕ) (xs : List ℕ) → mem_task e xs ≡ true → mem_task e (xs ++ t ∷ []) ≡ true
unfolding mem_task
mem-append e t [] h = absurd (cc)
mem-append e t (x ∷ xs) h = ground (arith, mem-append e t xs)

mem-last : (e : ℕ) (xs : List ℕ) → mem_task e (xs ++ e ∷ []) ≡ true
unfolding mem_task
mem-last e [] = ground arith
mem-last e (x ∷ xs) = ground (arith, mem-last e xs)

ahead-append :
    (e t : ℕ) (xs : List ℕ) → mem_task e xs ≡ true → ahead_of e (xs ++ t ∷ []) ≡ ahead_of e xs
unfolding mem_task ahead_of
ahead-append e t [] h = absurd (cc)
ahead-append e t (x ∷ xs) h = ground (arith, ahead-append e t xs)

mem-drop_task :
    (e t : ℕ) (xs : List ℕ)
    → t == e ≡ false
    → mem_task e xs ≡ true
    → mem_task e (drop_task t xs) ≡ true
unfolding mem_task drop_task
mem-drop_task e t [] ne h = absurd (cc)
mem-drop_task e t (x ∷ xs) ne h = ground (arith, mem-drop_task e t xs ne)

ahead-drop_task :
    (e t : ℕ) (xs : List ℕ)
    → t == e ≡ false
    → mem_task e xs ≡ true
    → ahead_of e (drop_task t xs) ≤ ahead_of e xs
unfolding mem_task drop_task ahead_of
ahead-drop_task e t [] ne h = absurd (cc)
ahead-drop_task e t (x ∷ xs) ne h = ground (arith, ahead-drop_task e t xs ne)

module _ (e n : ℕ) where
  take_slot-IsWaiting : (s : System) (t : ℕ) → IsWaiting e n s → IsWaiting e n (take_slot s t).0
  unfolding take_slot start
  take_slot-IsWaiting s t v = elim (Bool-cases (try_acquire s.sem t).1) [
    | inl a ↦ rw (a, take_slot) (record { queued = v.queued; ahead = v.ahead; waits = v.waits })
    | inr a ↦ rw (a, take_slot) (record { queued = v.queued; ahead = v.ahead; waits = v.waits })
  ]

  queue_path-IsWaiting : (s : System) (t : ℕ) → IsWaiting e n s → IsWaiting e n (queue_path s t).0
  unfolding queue_path mem_task
  queue_path-IsWaiting s t v = elim (Bool-cases (not (locked s.sem) && is_empty s.queue)) [
    | inl a ↦ rw (a, queue_path) (take_slot-IsWaiting s t v)
    | inr a ↦
        rw (a, queue_path)
          (elim (Bool-cases (leb s.max_queue (length s.queue))) [
            | inl full ↦ rw full v
            | inr room ↦ rw room (record {
              queued = mem-append e t s.queue v.queued;
              ahead = omega (arith, ahead-append e t s.queue v.queued, v.ahead);
              waits = ground (arith, v.waits);
            })
          ])
  ]

  enter-IsWaiting : (s : System) (t : ℕ) → IsWaiting e n s → IsWaiting e n (enter s t).0
  unfolding enter
  enter-IsWaiting s t v = elim (Bool-cases (locked s.sem || not (is_empty s.queue))) [
    | inl a ↦ rw (a, enter) (queue_path-IsWaiting s t v)
    | inr a ↦ rw (a, enter) (take_slot-IsWaiting s t v)
  ]

  time_out-IsWaiting :
      (s : System) (t : ℕ) → t == e ≡ false → IsWaiting e n s → IsWaiting e n (time_out s t)
  unfolding time_out
  time_out-IsWaiting s t ne v = record {
    queued = mem-drop_task e t s.queue ne v.queued;
    ahead = omega (arith, ahead-drop_task e t s.queue ne v.queued, v.ahead);
    waits = mem-drop_task e t s.waiting ne v.waits;
  }

  cancel_wait-IsWaiting :
      (s : System) (t : ℕ) → t == e ≡ false → IsWaiting e n s → IsWaiting e n (cancel_wait s t)
  unfolding cancel_wait
  cancel_wait-IsWaiting s t ne v = record {
    queued = v.queued;
    ahead = v.ahead;
    waits = mem-drop_task e t s.waiting ne v.waits;
  }

-- A release grants the turn to a waiting task, or brings it one place nearer.
IsNearer : ℕ → ℕ → System → Type 0
IsNearer e n u = (mem_task e u.granted ≡ true) ⊎ ((0 < n) × IsWaiting e (n - 1) u)

grant_next-nobody : (e : ℕ) (q : List ℕ) → q ≡ [] → mem_task e q ≡ true → ⊥
unfolding mem_task
grant_next-nobody e q h m = ground arith

head_iff :
    (e x : ℕ) (rest q : List ℕ)
    → q ≡ x ∷ rest
    → mem_task e q ≡ true
    → (x ≡ e) ⊎ ((x == e ≡ false) × (mem_task e rest ≡ true) × (ahead_of e rest + 1 ≡ ahead_of e q))
unfolding mem_task ahead_of
head_iff e x rest q h m = ground arith

grant_next-IsNearer :
    (e n : ℕ) (s : System) (q : List ℕ)
    → s.queue ≡ q
    → IsWaiting e n s
    → IsNearer e n (freed (grant_next s q))
unfolding grant_next freed IsNearer
grant_next-IsNearer e n s [] h v = absurd (grant_next-nobody e s.queue h v.queued)
grant_next-IsNearer e n s (x ∷ rest) h v = elim (head_iff e x rest s.queue h v.queued) [
  | inl same ↦ inl (rw (same, v.waits, grant_next) (mem-last e s.granted))
  | inr (ne, m, nearer) ↦ elim (Bool-cases (mem_task x s.waiting)) [
    | inl live ↦
        rw (live, grant_next)
          (inr (
            omega (arith, nearer, v.ahead),
            record {
              queued = m;
              ahead = omega (arith, nearer, v.ahead);
              waits = mem-drop_task e x s.waiting ne v.waits;
            },
          ))
    | inr gone ↦
        rw (gone, grant_next)
          (inr (
            omega (arith, nearer, v.ahead),
            record { queued = m; ahead = omega (arith, nearer, v.ahead); waits = v.waits },
          ))
  ]
]

release-IsNearer :
    (e n : ℕ) (s u : System) (t : ℕ) → release s t ≡ some u → IsWaiting e n s → IsNearer e n u
unfolding release leave
release-IsNearer e n s u t h v = elim (Bool-cases (s.active == 0)) [
  | inl idle ↦ absurd (cc (rw (idle, release) at h))
  | inr busy ↦ subst (IsNearer e n) (some-injective _ _ (rw (busy, release) at h)) (
      grant_next-IsNearer e n (leave s t) s.queue refl
        (record { queued = v.queued; ahead = v.ahead; waits = v.waits }))
]

-- After some steps, the task has been granted its turn, or waits behind as many fewer entries.
Outlook : (e n : ℕ) {s u : System} → Reach s u → Type 0
Outlook e n {s} {u} r = GetsTurn e r ⊎ ((m : ℕ) × (m + releases_in r ≡ n) × IsWaiting e m u)

Step-Outlook :
    (e n m : ℕ) {s u v : System} (r : Reach s u) (st : Step u v)
    → m + releases_in r ≡ n
    → IsWaiting e m u
    → IsPatient e st
    → Outlook e n (next r st)
unfolding Outlook releases_in resume proceed cancel_block IsNearer
Step-Outlook e n m {u} r (enters t h) c w k = inr (m, c, rw h (enter-IsWaiting e m u t w))
Step-Outlook e n m {u} r (resumes t g h) c w k = inr (
  m,
  c,
  rw h (
      take_slot-IsWaiting e m (record u { granted = drop_task t u.granted }) t
        (record { queued = w.queued; ahead = w.ahead; waits = w.waits })),
)
Step-Outlook e n m r (proceeds t g h) c w k =
    inr (m, c, rw h (record { queued = w.queued; ahead = w.ahead; waits = w.waits }))
Step-Outlook e n m {u} r (times_out t g h) c w k = inr (m, c, rw h (time_out-IsWaiting e m u t k w))
Step-Outlook e n m {u} r (cancels_wait t g h) c w k =
    inr (m, c, rw h (cancel_wait-IsWaiting e m u t k w))
Step-Outlook e n m r (cancels_block t d g h) c w k =
    inr (m, c, rw h (record { queued = w.queued; ahead = w.ahead; waits = w.waits }))
Step-Outlook e n m {u} {v} r (releases t g h) c w k = elim (release-IsNearer e m u v t h w) [
  | inl turn ↦ inl (inr turn)
  | inr (pos, nearer) ↦ inr (m - 1, omega (arith, c, pos), nearer)
]

Reach-Outlook :
    (e n : ℕ) {s u : System} (r : Reach s u) → IsWaiting e n s → KeepsWaiting e r → Outlook e n r
unfolding Outlook releases_in
Reach-Outlook e n here v k = inr (n, omega arith, v)
Reach-Outlook e n (next r st) v k = elim (Reach-Outlook e n r v k.0) [
  | inl h ↦ inl (inl h)
  | inr (m, c, w) ↦ Step-Outlook e n m r st c w k.1
]

-- A request that waits is granted its turn: from any state, whatever else arrives, is resumed, times
-- out, is cancelled or ends, once more requests have given their slots back than there are entries
-- ahead of its own, it has been granted its turn, unless its own wait timed out or was cancelled.
pub Reach-GetsTurn :
    (e : ℕ) {s u : System} (r : Reach s u)
    → mem_task e s.queue ≡ true
    → mem_task e s.waiting ≡ true
    → KeepsWaiting e r
    → ahead_of e s.queue < releases_in r
    → GetsTurn e r
unfolding Outlook
Reach-GetsTurn e {s} r queued waits k enough =
    elim (Reach-Outlook e (ahead_of e s.queue) r
      (record { queued = queued; ahead = omega arith; waits = waits }) k) [
        | inl h ↦ h
        | inr (m, c, w) ↦ absurd (omega (arith, c, enough))
      ]
