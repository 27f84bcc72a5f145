-- ===== src/IoContext/Tests.antt =====
-- A context that has made its timer and its network service.
use async.Prelude.{ℕ, ◌≡◌, refl, true, false, none, some, [], ◌++◌}
use async.Scheduler.{empty}
use async.IoContext.{IoContext, shutdown}
use async.IoContext.Lifecycle.{alive, IsClear, shutdown_order}

abbrev context : IoContext ℕ
context = record {
  sched = empty;
  cpu_pool_ptr = none;
  timer_ptr = some 0;
  signals_ptr = none;
  net_ptr = some 1;
  shutdown_done = false;
  next = 2;
  destroyed = [];
}

shutdown_order_example :
    ((shutdown context).destroyed ≡ [] ++ alive context)
    × IsClear (shutdown context)
    × ((shutdown context).sched.stop_requested ≡ true)
shutdown_order_example = shutdown_order context refl
