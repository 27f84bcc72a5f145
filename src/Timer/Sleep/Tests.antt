-- ===== src/Timer/Sleep/Tests.antt =====
-- A sleep of 5 ticks behind another entry.
use async.Prelude.{◌≡◌, refl, true, false, some, List, [], ◌∷◌, arith}
use async.Cancel.{empty_token, is_cancelled, request_cancel, load, store}
use async.Scheduler.{Handle, empty, post}
use async.Timer.{Entry, insert, cmp, schedule, after}
use async.Timer.Loop.Posted.{jobs}
use async.Timer.Order.{count_id}
use async.Timer.Loop.{
  at_lock, System, Event, schedules, cancels, ticks, takes, reads, fires, step, steps,
}
use async.Timer.Loop.Invariant.{total}
use async.Timer.Sleep.{Awaitable, await_suspend}
use async.Timer.Sleep.Full.{PostedAfter, sleep_lasts}

abbrev nap : Awaitable
nap = record { d = 5; ct = record { st = some 0 } }

abbrev other : Entry Handle
other = record { when = 9; id = 1; ct = empty_token; job = 70 }

abbrev awake : System Handle
awake = record {
  timer = record { q = other ∷ []; seq = 1; stop = false };
  pc = at_lock;
  now = 2;
  flags = false ∷ [];
  sched = empty;
  fired = [];
  dropped = [];
}

-- The sleep is cancelled at once, and lasts until time 8 nevertheless.
abbrev rest : List (Event Handle)
rest = cancels (record { st = some 0 }) ∷ takes ∷ ticks 6 ∷ reads ∷ fires ∷ []

abbrev sleeper : Entry Handle
sleeper = record { when = 7; id = 2; ct = empty_token; job = 33 }

abbrev slept : System Handle
slept = record awake {
  timer = record { q = other ∷ []; seq = 2; stop = false };
  now = 8;
  flags = true ∷ [];
  sched = post (some 33) empty;
  fired = (sleeper, 8) ∷ [];
}

sleep_lasts_example :
    (total 2 slept ≡ 1)
    × (count_id 2 slept.dropped ≡ 0)
    × PostedAfter 2 sleeper slept.fired
    × (slept.sched.fn_q ≡ jobs slept.fired)
unfolding step steps insert cmp is_cancelled request_cancel load store post await_suspend after
    schedule
sleep_lasts_example =
    sleep_lasts 0 (false ∷ []) (ticks 2 ∷ schedules 9 (some 70) empty_token ∷ []) rest awake slept
      nap 33 (record { q = sleeper ∷ other ∷ []; seq = 2; stop = false }) (omega arith) refl refl
      refl refl refl
