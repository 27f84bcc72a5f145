-- ===== src/Scheduler/Schedule.antt =====
-- include/vix/async/core/scheduler.hpp: `schedule_awaitable`, which every coroutine may await.
use async.Prelude.{Bool, true, false, Option, none, some, List, [], ◌∷◌, ◌++◌}
use async.Scheduler.{Scheduler, Handle, post_handle}

module _ {F : Type 0} where
  -- `await_suspend`, with the handles that were resumed at once. `await_ready` is always false, and
  -- the scheduler is null in an awaitable that `schedule` has not made.
  unfoldable pub await_suspend :
      Bool → Option Handle → Scheduler F × List Handle → Scheduler F × List Handle
  unfolding post_handle
  await_suspend true h (s, inline) = (post_handle h s, inline)
  await_suspend false none (s, inline) = (s, inline)
  await_suspend false (some h) (s, inline) = (s, inline ++ h ∷ [])
