-- ===== src/Timer/Loop.antt =====
-- src/core/timer.cpp, `timer_loop`, interleaved with the threads that schedule, cancel and stop. The
-- clock is a number that never falls. A mutex section, a reading of the clock and a return from a
-- wait are one step each.
pub mod Invariant
pub mod Deadlines
pub mod Drops
pub mod Entries
pub mod Ordered
pub mod Posted
pub mod Scheduled
pub mod Shutdown
mod Tests
use async.Prelude.{ℕ, ◌+◌, Option, none, some, List, [], ◌∷◌, ◌++◌, ltb, leb, if◌then◌else◌}
use async.Cancel.{States, CancelToken, CancelSource, is_cancelled, request_cancel}
use async.Scheduler.{Scheduler}
use async.Scheduler
use async.Timer.{Entry, Timer, new_timer, insert, schedule, stop}

-- Where the worker thread stands: before the first mutex section of the loop; before the reading of
-- the clock, with the entry `next`; after it, when `next` is not due; in `wait_until`; behind the
-- inner loop; and returned.
pub data Pc (J : Type 0) : Type 0 where
  at_lock : Pc J
  holding : Entry J → Pc J
  checking : Entry J → Pc J
  sleeping : Entry J → Pc J
  due : Entry J → Pc J
  exited : Pc J

-- `fired` lists the entries whose job was posted, oldest first, with the clock's value then,
-- and `dropped` those that were cancelled by the time they were due.
pub record System (J : Type 0) : Type 0 where
  pub timer : Timer J
  pub pc : Pc J
  pub now : ℕ
  pub flags : States
  pub sched : Scheduler J
  pub fired : List (Entry J × ℕ)
  pub dropped : List (Entry J)

pub data Event (J : Type 0) : Type 0 where
  schedules : ℕ → Option J → CancelToken → Event J
  stops : Event J
  cancels : CancelSource → Event J
  ticks : ℕ → Event J
  takes : Event J
  reads : Event J
  checks : Event J
  wakes : Event J
  fires : Event J

module _ {J : Type 0} where
  abbrev pub start : ℕ → States → System J
  start now flags = record {
    timer = new_timer;
    pc = at_lock;
    now = now;
    flags = flags;
    sched = Scheduler.empty;
    fired = [];
    dropped = [];
  }

  abbrev set_q : List (Entry J) → System J → System J
  set_q q s = record s { timer = record s.timer { q = q } }

  -- The first mutex section: wait for a stop or an entry, then take the first entry out.
  abbrev take_from : List (Entry J) → System J → Option (System J)
  take_from (e ∷ rest) s =
      if s.timer.stop
      then some (record s { pc = exited })
      else some (record s { timer = record s.timer { q = rest }; pc = holding e })
  take_from [] s = if s.timer.stop then some (record s { pc = exited }) else none

  -- The mutex section of the inner loop up to the wait: an entry with an earlier deadline than `next`
  -- takes its place, and `next` goes back.
  abbrev check_from : Entry J → List (Entry J) → System J → System J
  check_from next (x ∷ rest) s =
      if ltb x.when next.when
      then record s { timer = record s.timer { q = insert next rest }; pc = holding x }
      else record s { pc = sleeping next }
  check_from next [] s = record s { pc = sleeping next }

  abbrev take_at : Pc J → System J → Option (System J)
  take_at at_lock s = take_from s.timer.q s
  take_at _ s = none

  abbrev read_at : Pc J → System J → Option (System J)
  read_at (holding next) s =
      some (record s { pc = if leb next.when s.now then due next else checking next })
  read_at _ s = none

  abbrev check_at : Pc J → System J → Option (System J)
  check_at (checking next) s =
      some (if s.timer.stop then record s { pc = exited } else check_from next s.timer.q s)
  check_at _ s = none

  -- The return from `cv_.wait_until`: its predicate is `stop_` alone, so that it returns when the
  -- timer is stopped or the deadline of `next` has come.
  abbrev wake_at : Pc J → System J → Option (System J)
  wake_at (sleeping next) s =
      if s.timer.stop
      then some (record s { pc = exited })
      else (if leb next.when s.now then some (record s { pc = holding next }) else none)
  wake_at _ s = none

  -- Behind the inner loop: a cancelled entry is dropped, the job of another one is posted.
  abbrev fire_at : Pc J → System J → Option (System J)
  fire_at (due next) s = some (
      if is_cancelled s.flags next.ct
      then record s { pc = at_lock; dropped = s.dropped ++ next ∷ [] }
      else record s {
        pc = at_lock;
        sched = Scheduler.post (some next.job) s.sched;
        fired = s.fired ++ (next, s.now) ∷ [];
      })
  fire_at _ s = none

  unfoldable pub step : Event J → System J → Option (System J)
  unfolding schedule stop
  step (schedules tp j ct) s = some (record s { timer = schedule tp j ct s.timer })
  step stops s = some (record s { timer = stop s.timer })
  step (cancels c) s = some (record s { flags = request_cancel s.flags c })
  step (ticks d) s = some (record s { now = s.now + d })
  step takes s = take_at s.pc s
  step reads s = read_at s.pc s
  step checks s = check_at s.pc s
  step wakes s = wake_at s.pc s
  step fires s = fire_at s.pc s

  unfoldable pub steps : List (Event J) → System J → Option (System J)
  steps [] s = some s
  steps (e ∷ es) s = elim (step e s) [ none ↦ none | some t ↦ steps es t ]
