-- ===== src/IoContext.antt =====
-- src/core/io_context.cpp and include/vix/async/core/io_context.hpp: the services of a context, which
-- are made when they are first asked for, and its shutdown. Every public operation holds the
-- lifecycle mutex from begin to end, and is one step.
pub mod Lifecycle
pub mod Teardown
mod Tests
use async.Prelude.{ℕ, ◌+◌, Bool, true, Option, none, some, List, [], ◌∷◌, ◌++◌, if◌then◌else◌}
use async.Scheduler.{Scheduler, Handle, stop, post, post_handle}

pub data Service : Type 0 where
  cpu_pool timers signals net : Service

-- A service object is a number, and `next` is the number of the next one. `destroyed` lists the
-- services that were torn down, oldest first.
pub record IoContext (F : Type 0) : Type 0 where
  pub sched : Scheduler F
  pub cpu_pool_ptr : Option ℕ
  pub timer_ptr : Option ℕ
  pub signals_ptr : Option ℕ
  pub net_ptr : Option ℕ
  pub shutdown_done : Bool
  pub next : ℕ
  pub destroyed : List Service

-- `std::runtime_error("io_context is shut down")`, or the service.
pub data Access : Type 0 where
  is_shut_down : Access
  service : ℕ → Access

-- The calls on a context.
pub data Call (F : Type 0) : Type 0 where
  gets : Service → Call F
  shuts_down : Call F
  posts : Option F → Call F
  posts_handle : Option Handle → Call F
  stops : Call F

module _ {F : Type 0} where
  abbrev pub slot : Service → IoContext F → Option ℕ
  slot cpu_pool c = c.cpu_pool_ptr
  slot timers c = c.timer_ptr
  slot signals c = c.signals_ptr
  slot net c = c.net_ptr

  abbrev pub set_slot : Service → Option ℕ → IoContext F → IoContext F
  set_slot cpu_pool p c = record c { cpu_pool_ptr = p }
  set_slot timers p c = record c { timer_ptr = p }
  set_slot signals p c = record c { signals_ptr = p }
  set_slot net p c = record c { net_ptr = p }

  abbrev pub make_if_missing : Service → Option ℕ → IoContext F → Access × IoContext F
  make_if_missing s (some p) c = (service p, c)
  make_if_missing s none c =
      (service c.next, record (set_slot s (some c.next) c) { next = c.next + 1 })

  -- `cpu_pool`, `timers`, `signals` and `net`, with `ensure_not_shutdown`.
  unfoldable pub get : Service → IoContext F → Access × IoContext F
  get s c = if c.shutdown_done then (is_shut_down, c) else make_if_missing s (slot s c) c

  abbrev pub reset_slot : Service → Option ℕ → IoContext F → IoContext F
  reset_slot s none c = c
  reset_slot s (some p) c = record (set_slot s none c) { destroyed = c.destroyed ++ s ∷ [] }

  -- `std::unique_ptr::reset` of one service.
  abbrev pub tear_down : Service → IoContext F → IoContext F
  tear_down s c = reset_slot s (slot s c) c

  unfoldable pub shutdown : IoContext F → IoContext F
  unfolding stop
  shutdown c =
      if c.shutdown_done
      then c
      else tear_down cpu_pool (
          tear_down timers (
            tear_down signals
              (tear_down net (record c { shutdown_done = true; sched = stop c.sched }))))

  unfoldable pub step : Call F → IoContext F → IoContext F
  unfolding get shutdown post post_handle stop
  step (gets s) c = (get s c).1
  step shuts_down c = shutdown c
  step (posts f) c = record c { sched = post f c.sched }
  step (posts_handle h) c = record c { sched = post_handle h c.sched }
  step stops c = record c { sched = stop c.sched }

  pub steps : List (Call F) → IoContext F → IoContext F
  steps [] c = c
  steps (x ∷ xs) c = steps xs (step x c)
