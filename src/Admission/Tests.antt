-- ===== src/Admission/Tests.antt =====
-- Runs of app/core/admission.py's controller with one slot, and instances of its theorems.
use syn.Common.{ℕ, ◌≤◌, ◌≡◌, refl, some, [], ◌∷◌, arith, length, ◌⊎◌}
use syn.Admission.Semaphore.{locked, try_acquire, wake_next, blocked, release as release_slot}
use syn.Admission.{
  System, Step, Reach, here, next, enters, releases, runs, queues, queue_full, init, enter,
  cancel_wait, release, resume, resumes, mem_task, drop_task,
}
use syn.Admission.Invariant.{Reach-bounds, release-total, slots_recover}
use syn.Admission.Queueing.{Arrival, enter-Arrival}
use syn.Admission.Progress.{GetsTurn, ahead_of, releases_in, Reach-GetsTurn}
use syn.Admission.Wakeups.{IsStalled, release-IsStalled}

abbrev fresh : System
fresh = init 1 2 30

-- Task 0 runs, and tasks 1 and 2 queue behind it.
abbrev one : System
one = (enter fresh 0).0

abbrev two : System
two = (enter one 1).0

abbrev three : System
three = (enter two 2).0

three_reached : Reach fresh three
three_reached = next (next (next here (enters 0 refl)) (enters 1 refl)) (enters 2 refl)

outcomes :
    ((enter fresh 0).1 ≡ runs)
    × ((enter one 1).1 ≡ queues)
    × ((enter two 2).1 ≡ queues)
    × ((enter three 3).1 ≡ queue_full)
unfolding init enter try_acquire locked
outcomes = (refl, refl, refl, refl)

-- What the controller holds once task 0 has ended.
abbrev after : System
after = record three {
  ctl = record three.ctl { sem = record { value = 1; waiters = [] }; queue = 2 ∷ []; active = 0 };
  waiting = 2 ∷ [];
  granted = 1 ∷ [];
  running = [];
}

release-three : release three 0 ≡ some after
unfolding release release_slot wake_next init enter try_acquire locked mem_task drop_task
release-three = refl

-- The same when task 1 was cancelled while it waited.
abbrev stalled : System
stalled = record after { granted = [] }

release_cancelled : release (cancel_wait three 1) 0 ≡ some stalled
unfolding release release_slot wake_next init enter try_acquire locked cancel_wait mem_task
    drop_task
release_cancelled = refl

Reach-bounds_example :
    (length three.running ≤ 1) × (three.active ≡ length three.running) × (length three.queue ≤ 2)
Reach-bounds_example = Reach-bounds 1 2 30 three_reached

release-total_example : (u : System) × (release three 0 ≡ some u) × Reach fresh u
unfolding init enter try_acquire locked mem_task
release-total_example = release-total 1 2 30 0 three_reached refl

slots_recover_example : (after.sem.value ≡ 1) × (◌≡◌ {A = ℕ} 1 0 ⊎ (blocked after.sem.waiters ≡ 0))
unfolding init enter try_acquire locked mem_task
slots_recover_example =
    slots_recover 1 2 30 (next three_reached (releases 0 refl release-three)) refl refl

-- Task 0 ends, task 1 runs and ends, and task 2 is granted the turn.
abbrev drained : System
drained = record after { ctl = record after.ctl { queue = [] }; waiting = []; granted = 2 ∷ [] }

release-after : release (resume after 1).0 1 ≡ some drained
unfolding release release_slot wake_next resume try_acquire locked mem_task drop_task
release-after = refl

two_ended : Reach three drained
unfolding init enter try_acquire locked mem_task resume drop_task
two_ended =
    next (next (next here (releases 0 refl release-three)) (resumes 1 refl refl))
      (releases 1 refl release-after)

Reach-GetsTurn_example : GetsTurn 2 two_ended
unfolding init enter try_acquire locked mem_task ahead_of releases_in two_ended
Reach-GetsTurn_example = Reach-GetsTurn 2 two_ended refl refl (((tt, tt), tt), tt) (omega arith)

enter-Arrival_example : Arrival two 2 (enter two 2)
enter-Arrival_example = enter-Arrival two 2

release-IsStalled_example : IsStalled stalled × (stalled.queue ≡ 2 ∷ [])
unfolding init enter try_acquire locked mem_task cancel_wait drop_task
release-IsStalled_example =
    release-IsStalled (cancel_wait three 1) stalled 0 1 2 [] refl refl refl refl refl
      release_cancelled

is_stalled : IsStalled stalled
is_stalled = record {
  idle = refl;
  none_granted = refl;
  none_blocked = refl;
  free = omega arith;
  queued = λ e. cc;
}

arrives : Step stalled (enter stalled 7).0
arrives = enters 7 refl
