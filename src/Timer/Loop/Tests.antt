-- ===== src/Timer/Loop/Tests.antt =====
-- A timer with two entries, and one that is scheduled too late.
use async.Prelude.{
  ℕ, ◌+◌, ◌≤◌, ◌⊎◌, ◌≡◌, refl, true, false, some, List, [], ◌∷◌, arith, length, is_some, Each,
}
use async.Cancel.{empty_token, is_cancelled, load}
use async.Scheduler.{empty, post}
use async.Timer.{Entry, insert, cmp, schedule, stop}
use async.Timer.Loop.{
  at_lock, holding, sleeping, exited, System, Event, schedules, ticks, takes, reads, wakes, fires,
  step, steps,
}
use async.Timer.Loop.Invariant.{total}
use async.Timer.Loop.Scheduled.{scheduled_once}
use async.Timer.Loop.Posted.{jobs}
use async.Timer.Loop.Drops.{IsCancelled}
use async.Timer.Loop.Ordered.{TakesFirst, takes_earliest}
use async.Timer.Loop.Shutdown.{worker_steps, release, by_worker, destructor_returns}
use async.Timer.Loop.Deadlines.{wait_ignores_earlier}

abbrev entry : ℕ → ℕ → ℕ → Entry ℕ
entry when id job = record { when = when; id = id; ct = empty_token; job = job }

-- Two entries for the times 9 and 4; at time 6 the second one has been posted.
abbrev history : List (Event ℕ)
history =
    schedules 9 (some 70) empty_token
    ∷ schedules 4 (some 71) empty_token
    ∷ takes
    ∷ ticks 6
    ∷ reads
    ∷ fires
    ∷ []

abbrev reached : System ℕ
reached = record {
  timer = record { q = entry 9 1 70 ∷ []; seq = 2; stop = false };
  pc = at_lock;
  now = 6;
  flags = [];
  sched = record { handle_q = []; fn_q = some 71 ∷ []; stop_requested = false; running = false };
  fired = (entry 4 2 71, 6) ∷ [];
  dropped = [];
}

scheduled_once_example :
    (total 1 reached ≡ 1)
    × (reached.sched.fn_q ≡ jobs reached.fired)
    × Each (IsCancelled reached.flags) reached.dropped
unfolding step steps insert cmp post load is_cancelled
scheduled_once_example =
    scheduled_once 1 0 [] history reached (omega arith) refl refl (omega arith) (omega arith)

abbrev two_queued : System ℕ
two_queued = record {
  timer = record { q = entry 4 2 71 ∷ entry 9 1 70 ∷ []; seq = 2; stop = false };
  pc = at_lock;
  now = 0;
  flags = [];
  sched = empty;
  fired = [];
  dropped = [];
}

abbrev one_taken : System ℕ
one_taken = record two_queued {
  timer = record { q = entry 9 1 70 ∷ []; seq = 2; stop = false };
  pc = holding (entry 4 2 71);
}

takes_earliest_example : TakesFirst two_queued one_taken
unfolding step steps insert cmp
takes_earliest_example =
    takes_earliest 0 [] (schedules 9 (some 70) empty_token ∷ schedules 4 (some 71) empty_token ∷ [])
      two_queued one_taken (omega arith) refl refl

-- The thread waits for time 9; an entry for time 4 comes in, and time passes to 8.
abbrev waiting : System ℕ
waiting = record {
  timer = record { q = []; seq = 1; stop = false };
  pc = sleeping (entry 9 1 70);
  now = 0;
  flags = [];
  sched = empty;
  fired = [];
  dropped = [];
}

abbrev overdue : System ℕ
overdue = record waiting {
  timer = record { q = entry 4 2 71 ∷ []; seq = 2; stop = false };
  now = 8;
}

wait_ignores_earlier_example :
    (overdue.pc ≡ sleeping (entry 9 1 70))
    × (overdue.fired ≡ waiting.fired)
    × (overdue.sched ≡ waiting.sched)
unfolding step steps insert
wait_ignores_earlier_example =
    wait_ignores_earlier (schedules 4 (some 71) empty_token ∷ ticks 8 ∷ []) waiting overdue
      (entry 9 1 70) refl refl (omega arith) refl

-- The timer is destroyed while the thread waits: a schedule is refused, and the thread returns.
abbrev refused_then_woken : List (Event ℕ)
refused_then_woken = schedules 4 (some 71) empty_token ∷ wakes ∷ []

abbrev destroyed : System ℕ
destroyed = record waiting { timer = record { q = []; seq = 1; stop = true }; pc = exited }

destructor_returns_example :
    (worker_steps refused_then_woken ≤ 3)
    × (length destroyed.fired ≤ length waiting.fired + 1)
    × ((is_some (release true false false destroyed.pc) ≡ true)
        ⊎ ((e : Event ℕ) × (u : System ℕ) × (by_worker e ≡ true) × (step e destroyed ≡ some u)))
unfolding step steps schedule stop
destructor_returns_example =
    destructor_returns refused_then_woken waiting destroyed true false false refl
