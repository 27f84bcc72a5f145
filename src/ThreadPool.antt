-- ===== src/ThreadPool.antt =====
-- src/core/thread_pool.cpp and include/vix/async/core/thread_pool.hpp: the queue, the workers and
-- their shutdown. `F` is the type of the callables. Every mutex section is one step, and the steps of
-- the workers and of the threads that submit interleave in any order.
pub mod Fifo
pub mod Bounds
pub mod Shutdown
pub mod Termination
pub mod Awaitable
pub mod Resumption
mod Tests
use async.Prelude.{
  ℕ, suc, ◌+◌, Bool, true, false, ◌&&◌, ◌||◌, not, Option, none, some, List, [], ◌∷◌, ◌++◌, ◌==◌,
  if◌then◌else◌, get_elem?, set, replicate, is_empty,
}

-- Where a worker thread stands: before its mutex section, in a callable, or out of `worker_loop`.
pub data Pc (F : Type 0) : Type 0 where
  at_lock : Pc F
  working : F → Pc F
  exited : Pc F

-- `threads` are the threads that the constructor started; `workers` counts the `std::thread` objects
-- that the pool still owns. `started` lists the callables that the workers took, oldest first.
pub record ThreadPool (F : Type 0) : Type 0 where
  pub q : List F
  pub stop : Bool
  pub shutdown_done : Bool
  pub threads : List (Pc F)
  pub workers : ℕ
  pub started : List F

-- `joins` ends a shutdown, in the thread of the worker that is given, or in another one.
pub data Event (F : Type 0) : Type 0 where
  submits : Option F → Event F
  stops : Event F
  shuts_down : Event F
  joins : Option ℕ → Event F
  takes : ℕ → Event F
  finishes : ℕ → Event F

module _ {F : Type 0} where
  -- The constructor.
  unfoldable pub new_pool : ℕ → ThreadPool F
  new_pool n =
      let threads = if n == 0 then 1 else n in
      record {
        q = [];
        stop = false;
        shutdown_done = false;
        threads = replicate threads at_lock;
        workers = threads;
        started = [];
      }

  unfoldable pub enqueue : F → ThreadPool F → ThreadPool F
  enqueue f s = if s.stop then s else record s { q = s.q ++ f ∷ [] }

  -- `submit(std::function<void()>)`: an empty function is not enqueued.
  unfoldable pub submit : Option F → ThreadPool F → ThreadPool F
  unfolding enqueue
  submit none s = s
  submit (some f) s = enqueue f s

  unfoldable pub stop : ThreadPool F → ThreadPool F
  stop s = record s { stop = true }

  unfoldable pub size : ThreadPool F → ℕ
  size s = s.workers

  -- `shutdown` up to the joins: only the first call goes on.
  unfoldable pub begin_shutdown : ThreadPool F → ThreadPool F
  begin_shutdown s = if s.shutdown_done then s else record s { shutdown_done = true; stop = true }

  abbrev pub is_exited : Pc F → Bool
  is_exited exited = true
  is_exited _ = false

  -- Whether the loop over the workers gets through: `join` waits for the thread's end, and a worker
  -- that shuts its own pool down is detached instead. `i` is the index of the first thread.
  unfoldable pub joinable_all : Option ℕ → ℕ → List (Pc F) → Bool
  joinable_all self i [] = true
  joinable_all self i (p ∷ ps) =
      (is_exited p || elim self [ none ↦ false | some j ↦ i == j ]) && joinable_all self (suc i) ps

  -- The mutex section of `worker_loop` in thread `i`, once the predicate of `cv_.wait` holds.
  abbrev pub take_from : List F → ℕ → ThreadPool F → ThreadPool F
  take_from (f ∷ fs) i s = record s {
    q = fs;
    threads = set s.threads i (working f);
    started = s.started ++ f ∷ [];
  }
  take_from [] i s = if s.stop then record s { threads = set s.threads i exited } else s

  unfoldable pub worker_take : ℕ → ThreadPool F → Option (ThreadPool F)
  worker_take i s = if s.stop || not (is_empty s.q) then some (take_from s.q i s) else none

  abbrev take_at : Option (Pc F) → ℕ → ThreadPool F → Option (ThreadPool F)
  take_at (some at_lock) i s = worker_take i s
  take_at _ i s = none

  -- The callable returns or throws; the worker goes round in both cases.
  abbrev pub finish_at : Option (Pc F) → ℕ → ThreadPool F → Option (ThreadPool F)
  finish_at (some (working f)) i s = some (record s { threads = set s.threads i at_lock })
  finish_at _ i s = none

  unfoldable pub step : Event F → ThreadPool F → Option (ThreadPool F)
  unfolding submit stop begin_shutdown worker_take
  step (submits f) s = some (submit f s)
  step stops s = some (stop s)
  step shuts_down s = some (begin_shutdown s)
  step (joins self) s =
      if s.shutdown_done && joinable_all self 0 s.threads
      then some (record s { workers = 0 })
      else none
  step (takes i) s = take_at (get_elem? s.threads i) i s
  step (finishes i) s = finish_at (get_elem? s.threads i) i s

  unfoldable pub steps : List (Event F) → ThreadPool F → Option (ThreadPool F)
  steps [] s = some s
  steps (e ∷ es) s = elim (step e s) [ none ↦ none | some t ↦ steps es t ]
