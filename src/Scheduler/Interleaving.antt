-- ===== src/Scheduler/Interleaving.antt =====
-- The scheduler under any interleaving of its loop with other threads, one mutex section at a time.
pub mod Fifo
use async.Prelude.{◌+◌, true, false, Option, none, some, List, [], ◌∷◌, ◌++◌, if◌then◌else◌}
use async.Scheduler.{
  Handle, Scheduler, Item, handle, callable, leave, nothing, empty, post, post_handle, stop, reset,
  awake, take, take_from, set_running,
}

-- Where the thread of `run` stands: outside, before the mutex section, or in the code of an item.
pub data Pc (F : Type 0) : Type 0 where
  outside : Pc F
  at_lock : Pc F
  doing : Item F → Pc F

-- `done` lists what the loop has taken from the queues, oldest first.
pub record System (F : Type 0) : Type 0 where
  pub sched : Scheduler F
  pub pc : Pc F
  pub done : List (Item F)

-- The posts and the stop come from any thread, the loop's own among them.
pub data Event (F : Type 0) : Type 0 where
  posts : Option F → Event F
  posts_handle : Option Handle → Event F
  stops : Event F
  resets : Event F
  enters : Event F
  takes : Event F
  finishes : Event F
  escapes : Event F

module _ {F : Type 0} where
  abbrev pub start : System F
  start = record { sched = empty; pc = outside; done = [] }

  -- After the mutex section: leave, go round again, or run the item.
  abbrev pub taken : Item F → Scheduler F → List (Item F) → System F
  taken leave s log = record { sched = set_running false s; pc = outside; done = log }
  taken nothing s log = record { sched = s; pc = at_lock; done = log }
  taken x s log = record { sched = s; pc = doing x; done = log ++ x ∷ [] }

  abbrev enter_at : Pc F → System F → Option (System F)
  enter_at outside s = some (record s { sched = set_running true s.sched; pc = at_lock })
  enter_at _ s = none

  abbrev take_at : Pc F → System F → Option (System F)
  take_at at_lock s =
      if awake s.sched then some (taken (take s.sched).0 (take s.sched).1 s.done) else none
  take_at _ s = none

  abbrev finish_at : Pc F → System F → Option (System F)
  finish_at (doing x) s = some (record s { pc = at_lock })
  finish_at _ s = none

  -- An exception of the item's code leaves `run`, without the store to `running_` behind the loop.
  abbrev escape_at : Pc F → System F → Option (System F)
  escape_at (doing x) s = some (record s { pc = outside })
  escape_at _ s = none

  -- `none` when the event cannot happen: `takes` waits for the condition variable's predicate.
  unfoldable pub step : Event F → System F → Option (System F)
  unfolding post post_handle stop reset awake take
  step (posts f) s = some (record s { sched = post f s.sched })
  step (posts_handle h) s = some (record s { sched = post_handle h s.sched })
  step stops s = some (record s { sched = stop s.sched })
  step resets s = some (record s { sched = reset s.sched })
  step enters s = enter_at s.pc s
  step takes s = take_at s.pc s
  step finishes s = finish_at s.pc s
  step escapes s = escape_at s.pc s

  unfoldable pub steps : List (Event F) → System F → Option (System F)
  steps [] s = some s
  steps (e ∷ es) s = elim (step e s) [ none ↦ none | some t ↦ steps es t ]
