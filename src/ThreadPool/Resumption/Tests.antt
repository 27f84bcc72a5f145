-- ===== src/ThreadPool/Resumption/Tests.antt =====
-- One worker and two coroutines, the second of which comes too late. The first is posted by another
-- thread as well.
use async.Prelude.{ℕ, ◌≡◌, refl, inr, true, none, some, List, [], ◌∷◌, ◌++◌, ◌+◌, count, Each}
use async.Completion.{returns}
use async.Scheduler.{empty, post_handle, take}
use async.ThreadPool.{
  Event, exited, submits, stops, shuts_down, joins, takes, finishes, joinable_all,
}
use async.ThreadPool as Pool
use async.ThreadPool.Fifo.{accepted}
use async.ThreadPool.Awaitable.{run_job, await_resume}
use async.ThreadPool.Resumption.{
  Job, System, Happening, on_pool, serves, posts_handle, start, step, steps, pool_events,
}
use async.ThreadPool.Resumption.Balance.{posted, awaits}
use async.ThreadPool.Resumption.Delivered.{others}
use async.ThreadPool.Resumption.Complete.{Gets, submits_resumed}

abbrev job : ℕ → Job ℕ ℕ
job h = record { h = h; ct = record { st = none }; fn = inr 42 }

abbrev history : List (Happening ℕ ℕ ℕ)
history =
    on_pool (submits (some (job 6)))
    ∷ on_pool (takes 0)
    ∷ on_pool shuts_down
    ∷ on_pool (submits (some (job 7)))
    ∷ posts_handle 6
    ∷ on_pool (finishes 0)
    ∷ serves
    ∷ on_pool (takes 0)
    ∷ []

abbrev closing : System ℕ ℕ ℕ
closing = record {
  pool = record {
    q = [];
    stop = true;
    shutdown_done = true;
    threads = exited ∷ [];
    workers = 1;
    started = job 6 ∷ [];
  };
  flags = [];
  sched = post_handle (some 6) empty;
  ended = (job 6, returns 42) ∷ [];
  resumed = 6 ∷ [];
}

abbrev closed : System ℕ ℕ ℕ
closed = record closing { pool = record closing.pool { workers = 0 } }

submits_resumed_example :
    (count 6 (closed.resumed ++ closed.sched.handle_q)
      ≡ awaits 6 (accepted (pool_events history)) + others 6 history)
    × (posted 6 closed.ended ≡ awaits 6 (accepted (pool_events history)))
    × Each (Gets closed.flags) closed.ended
unfolding start step steps Pool.step Pool.new_pool run_job await_resume joinable_all post_handle
    take
submits_resumed_example = submits_resumed 1 [] history closing closed 6 refl refl
