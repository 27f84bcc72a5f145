-- ===== src/ThreadPool/Resumption.antt =====
-- include/vix/async/core/thread_pool.hpp with src/core/thread_pool.cpp: coroutines that await
-- `submit` on a pool whose workers, submitters and shutdown interleave in any order. A job is the
-- enqueued lambda: its awaiting coroutine, its token, and what the callable of the user ends with.
pub mod Balance
pub mod Complete
pub mod Delivered
mod Tests
use async.Prelude.{
  ℕ, zero, suc, ◌+◌, ◌-◌, ◌*◌, ◌%◌, ◌^◌, ◌≤◌, ◌<◌, ◌≡◌, refl, sym, ap, ◌∙◌, ◌≢◌, ◌↔◌, ◌⊎◌, inl, inr,
  Bool, true, false, ◌&&◌, ◌||◌, not, Option, none, some, List, [], ◌∷◌, ◌++◌, map, append-nil,
  append_assoc, arith, dec_lt, ℕ_discrete, ltb, leb, ◌==◌, if◌then◌else◌, ltb→lt, lt→ltb, leb→le,
  ==_iff, tests, Bool-cases, Option-cases, length, get_elem?, set, replicate, is_empty, is_some,
  length-append, length-set, get_elem?-some, Each, Each-append,
}
use async.Completion.{Completion, Exception}
use async.Cancel.{States, CancelToken, CancelSource, request_cancel}
use async.Scheduler.{Scheduler, Handle, Item, handle, callable}
use async.Scheduler
use async.ThreadPool.{Pc, at_lock, working, exited, ThreadPool, Event, submits, finishes, new_pool}
use async.ThreadPool as Pool
use async.ThreadPool.Awaitable.{run_job, new_awaitable, await_resume}

pub record Job (E R : Type 0) : Type 0 where
  pub h : Handle
  pub ct : CancelToken
  pub fn : Exception E ⊎ R

-- `ended` lists the jobs whose lambda has run, oldest first, with what the coroutine gets from
-- `await_resume`, and `resumed` the handles that the loop of the scheduler has taken.
pub record System (E R F : Type 0) : Type 0 where
  pub pool : ThreadPool (Job E R)
  pub flags : States
  pub sched : Scheduler F
  pub ended : List (Job E R × Completion E R)
  pub resumed : List Handle

-- What happens: in the pool, to a token, or to the scheduler, whose loop takes an item, and to which
-- other threads post.
pub data Happening (E R F : Type 0) : Type 0 where
  on_pool : Event (Job E R) → Happening E R F
  cancels : CancelSource → Happening E R F
  serves : Happening E R F
  posts_handle : Handle → Happening E R F
  posts : Option F → Happening E R F

module _ {E R F : Type 0} where
  pub start : ℕ → States → System E R F
  unfolding new_pool
  start n flags = record {
    pool = new_pool n;
    flags = flags;
    sched = Scheduler.empty;
    ended = [];
    resumed = [];
  }

  -- The lambda, from the test of the token to the post of the coroutine.
  abbrev pub run_in : Job E R → System E R F → System E R F
  run_in j s =
      let r = run_job s.flags (some j.h) (new_awaitable j.ct j.fn) s.sched in
      record s { sched = r.1; ended = s.ended ++ (j, await_resume r.0) ∷ [] }

  abbrev pub run_at : Option (Pc (Job E R)) → System E R F → System E R F
  run_at (some (working j)) s = run_in j s
  run_at _ s = s

  -- A worker that ends its callable has run the lambda.
  abbrev pub effect : Event (Job E R) → System E R F → System E R F
  effect (finishes i) s = run_at (get_elem? s.pool.threads i) s
  effect _ s = s

  abbrev pub served : Item F × Scheduler F → System E R F → Option (System E R F)
  served (handle h, q) s = some (record s { sched = q; resumed = s.resumed ++ h ∷ [] })
  served (callable f, q) s = some (record s { sched = q })
  served _ s = none

  unfoldable pub step : Happening E R F → System E R F → Option (System E R F)
  unfolding request_cancel Scheduler.take Scheduler.post Scheduler.post_handle
  step (on_pool e) s = elim (Pool.step e s.pool) [
    | none ↦ none
    | some p ↦ some (record (effect e s) { pool = p })
  ]
  step (cancels c) s = some (record s { flags = request_cancel s.flags c })
  step serves s = served (Scheduler.take s.sched) s
  step (posts_handle h) s = some (record s { sched = Scheduler.post_handle (some h) s.sched })
  step (posts f) s = some (record s { sched = Scheduler.post f s.sched })

  unfoldable pub steps : List (Happening E R F) → System E R F → Option (System E R F)
  steps [] s = some s
  steps (x ∷ xs) s = elim (step x s) [ none ↦ none | some t ↦ steps xs t ]

  -- The events of the pool among what happens.
  abbrev pub pool_events : List (Happening E R F) → List (Event (Job E R))
  pool_events [] = []
  pool_events (on_pool e ∷ xs) = e ∷ pool_events xs
  pool_events (_ ∷ xs) = pool_events xs
