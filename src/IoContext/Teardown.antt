-- ===== src/IoContext/Teardown.antt =====
-- src/core/io_context.cpp, `shutdown` in detail: it holds the lifecycle mutex while it destroys the
-- services one after another, and each destructor stops its threads and joins them. The threads go on
-- meanwhile, and user code that runs on them may ask the context for a service.
pub mod PoolStuck
pub mod NetStuck
pub mod Deadlock
pub mod Lifted
pub mod Destructors
pub mod Completes
mod Tests
use async.Prelude.{
  ℕ, zero, suc, ◌+◌, ◌-◌, ◌*◌, ◌%◌, ◌^◌, ◌≤◌, ◌<◌, ◌≡◌, refl, sym, ap, ◌∙◌, ◌≢◌, ◌↔◌, ◌⊎◌, inl, inr,
  Bool, true, false, ◌&&◌, ◌||◌, not, Option, none, some, List, [], ◌∷◌, ◌++◌, map, append-nil,
  append_assoc, arith, dec_lt, ℕ_discrete, ltb, leb, ◌==◌, if◌then◌else◌, ltb→lt, lt→ltb, leb→le,
  ==_iff, tests, Bool-cases, Option-cases, length, get_elem?, set, replicate, is_empty, is_some,
  length-append, length-set, get_elem?-some, Each, Each-append, get_elem?-set_self,
  get_elem?-set_other, count, count-append,
}
use async.Scheduler.{stop, post, post_handle}
use async.ThreadPool.{ThreadPool, Pc, working, begin_shutdown}
use async.ThreadPool as Pool
use async.Timer as Timer
use async.Timer.Loop
use async.Timer.Loop.Shutdown.{release}
use async.Signal as Signal
use async.Signal.Worker.{join_at}
use async.Signal.Worker
use async.Net.Service as Net
use async.IoContext.{
  Service, cpu_pool, timers, signals, net, IoContext, slot, get, tear_down, Call, gets, shuts_down,
  posts, posts_handle, stops, step,
}

-- Where the shutdown stands: not under way, so that the mutex is free; before the destructor of a
-- service, with those that follow it; and in the join of that destructor.
pub data Phase : Type 0 where
  idle : Phase
  stopping : Service → List Service → Phase
  joining : Service → List Service → Phase

-- The state of a service counts only while the service exists. `net_asks` says that a handler on the
-- network thread waits for the lifecycle mutex. What the threads post goes to a scheduler that is
-- stopped by then, and each part keeps its own.
pub record Runtime (F : Type 0) : Type 0 where
  pub c : IoContext F
  pub pool : ThreadPool F
  pub timer : Loop.System F
  pub sigs : Worker.System
  pub netsvc : Net.Service
  pub net_asks : Bool
  pub phase : Phase

-- `answers` is the return of an access that waited on the network thread.
pub data Event (F : Type 0) : Type 0 where
  calls : Call F → Event F
  stops_service : Event F
  joins_service : Event F
  of_pool : Pool.Event F → Event F
  of_timer : Loop.Event F → Event F
  of_signals : Worker.Event → Event F
  of_net : Net.Event → Event F
  asks_net : Event F
  answers : Event F

abbrev pub is_idle : Phase → Bool
is_idle idle = true
is_idle _ = false

-- The mutex is released behind the last service.
abbrev pub next : List Service → Phase
next [] = idle
next (x ∷ xs) = stopping x xs

module _ {F : Type 0} where
  -- The first part of a destructor.
  abbrev pub stop_of : Service → Runtime F → Runtime F
  stop_of net s = record s { netsvc = Net.stop s.netsvc }
  stop_of signals s = record s { sigs = record s.sigs { set = Signal.stop s.sigs.set } }
  stop_of timers s = record s { timer = record s.timer { timer = Timer.stop s.timer.timer } }
  stop_of cpu_pool s = record s { pool = begin_shutdown s.pool }

  -- The rest of it, in a thread that belongs to no service: `none` while a thread has not returned.
  abbrev pub join_of : Service → Runtime F → Option (Runtime F)
  join_of net s = elim (Net.join false s.netsvc) [
    | none ↦ none
    | some n ↦ some (record s { netsvc = n })
  ]
  join_of signals s = elim (join_at s.sigs.pc false s.sigs) [
    | none ↦ none
    | some w ↦ some (record s { sigs = w })
  ]
  join_of timers s = elim (release true false false s.timer.pc) [ none ↦ none | some r ↦ some s ]
  join_of cpu_pool s = elim (Pool.step (Pool.joins none) s.pool) [
    | none ↦ none
    | some p ↦ some (record s { pool = p })
  ]

  -- A service that was never made has no destructor to run.
  abbrev pub stop_at : Phase → Runtime F → Option (Runtime F)
  stop_at (stopping v rest) s =
      if is_some (slot v s.c)
      then some (record (stop_of v s) { phase = joining v rest })
      else some (record s { phase = next rest })
  stop_at _ s = none

  abbrev pub join_phase : Phase → Runtime F → Option (Runtime F)
  join_phase (joining v rest) s = elim (join_of v s) [
    | none ↦ none
    | some t ↦ some (record t { c = tear_down v t.c; phase = next rest })
  ]
  join_phase _ s = none

  -- `shutdown` up to the destructors.
  abbrev pub begin : Runtime F → Runtime F
  begin s = if s.c.shutdown_done then s else record s {
    c = record s.c { shutdown_done = true; sched = stop s.c.sched };
    phase = stopping net (signals ∷ timers ∷ cpu_pool ∷ []);
  }

  -- The calls that take the lifecycle mutex wait while the shutdown holds it.
  abbrev pub call : Call F → Runtime F → Option (Runtime F)
  call (gets v) s = if is_idle s.phase then some (record s { c = step (gets v) s.c }) else none
  call shuts_down s = if is_idle s.phase then some (begin s) else none
  call x s = some (record s { c = step x s.c })

module _ {F : Type 0} (asks : F → Bool) where
  -- A callable that asks for a service does not end while the mutex is held.
  abbrev pub blocked : Option (Pc F) → Phase → Bool
  blocked (some (working f)) phase = asks f && not (is_idle phase)
  blocked _ phase = false

  -- The pool's own shutdown is its destructor, and no call of the program.
  abbrev pub pool_step : Pool.Event F → Runtime F → Option (ThreadPool F)
  pool_step (Pool.finishes i) s =
      if blocked (get_elem? s.pool.threads i) s.phase
      then none
      else Pool.step (Pool.finishes i) s.pool
  pool_step Pool.shuts_down s = none
  pool_step (Pool.joins self) s = none
  pool_step e s = Pool.step e s.pool

  abbrev pub net_step : Net.Event → Runtime F → Option Net.Service
  net_step (Net.run_ends work) s =
      if s.net_asks then none else Net.step (Net.run_ends work) s.netsvc
  net_step Net.run_throws s = if s.net_asks then none else Net.step Net.run_throws s.netsvc
  net_step e s = none

  unfoldable pub advance : Event F → Runtime F → Option (Runtime F)
  unfolding stop step
  advance (calls x) s = call x s
  advance stops_service s = stop_at s.phase s
  advance joins_service s = join_phase s.phase s
  advance (of_pool e) s =
      if is_some s.c.cpu_pool_ptr
      then elim (pool_step e s) [ none ↦ none | some p ↦ some (record s { pool = p }) ]
      else none
  advance (of_timer e) s =
      if is_some s.c.timer_ptr
      then elim (Loop.step e s.timer) [ none ↦ none | some t ↦ some (record s { timer = t }) ]
      else none
  advance (of_signals e) s =
      if is_some s.c.signals_ptr
      then elim (Worker.step e s.sigs) [ none ↦ none | some w ↦ some (record s { sigs = w }) ]
      else none
  advance (of_net e) s =
      if is_some s.c.net_ptr
      then elim (net_step e s) [ none ↦ none | some n ↦ some (record s { netsvc = n }) ]
      else none
  advance asks_net s =
      if is_some s.c.net_ptr && s.netsvc.running then some (record s { net_asks = true }) else none
  advance answers s = if is_idle s.phase then some (record s { net_asks = false }) else none

  unfoldable pub advances : List (Event F) → Runtime F → Option (Runtime F)
  advances [] s = some s
  advances (e ∷ es) s = elim (advance e s) [ none ↦ none | some t ↦ advances es t ]
