-- ===== src/Timer/Loop/Scheduled.antt =====
-- What becomes of a scheduled entry.
use async.Prelude.{ℕ, ◌^◌, ◌≤◌, ◌<◌, ◌≡◌, false, some, List, length, Each}
use async.Cancel.{States}
use async.Timer.Loop.{System, Event, start, steps}
use async.Timer.Loop.Invariant.{total, accounted_once}
use async.Timer.Loop.Drops.{IsCancelled, drops-IsCancelled}
use async.Timer.Loop.Posted.{jobs, fn_q-jobs}

module _ {J : Type 0} where
  -- Under every interleaving of fewer than 2 ^ 64 events with the timer's thread, from a new timer
  -- and an empty scheduler to which only the timer posts: while the timer is not stopped, every
  -- number that it has given out belongs to exactly one entry that is queued, held by the thread,
  -- fired or dropped. The scheduler's queue of callables holds the jobs of the fired entries, in
  -- their order, and no others; and the tokens of the dropped entries are cancelled.
  pub scheduled_once :
      (i now : ℕ) (flags : States) (es : List (Event J)) (t : System J)
      → length es < 2 ^ 64
      → steps es (start now flags) ≡ some t
      → t.timer.stop ≡ false
      → 0 < i
      → i ≤ t.timer.seq
      → (total i t ≡ 1) × (t.sched.fn_q ≡ jobs t.fired) × Each (IsCancelled t.flags) t.dropped
  scheduled_once i now flags es t lt p on pos le = (
    accounted_once i now flags es t lt p on pos le,
    fn_q-jobs now flags es t p,
    drops-IsCancelled now flags es t p,
  )
