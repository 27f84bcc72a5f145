-- ===== src/IoContext/Teardown/Tests.antt =====
-- A context with a pool and a network service, while its shutdown waits in the join of the latter.
use async.Prelude.{ℕ, ◌≡◌, refl, inl, Bool, true, false, none, some, List, [], ◌∷◌, ◌==◌}
use async.ThreadPool.{ThreadPool, working, at_lock}
use async.ThreadPool as Pool
use async.Timer.Loop
use async.Signal.Worker
use async.Signal.Worker.{in_sigwait}
use async.Net.Service as Net
use async.IoContext.{Service, cpu_pool, timers, signals, net, IoContext, shutdown, gets, shuts_down}
use async.IoContext.Teardown.{
  idle, joining, Runtime, Event, calls, of_pool, is_idle, advance, advances,
}
use async.IoContext.Teardown.Deadlock.{Waits, shutdown_deadlocks}
use async.IoContext.Teardown.Completes.{shutdown_returns}

-- The callable 1 asks for a service, and the others do not.
abbrev asks : ℕ → Bool
asks f = f == 1

abbrev pool : ThreadPool ℕ
pool = record {
  q = 4 ∷ [];
  stop = false;
  shutdown_done = false;
  threads = at_lock ∷ working 1 ∷ [];
  workers = 2;
  started = 1 ∷ [];
}

abbrev context : IoContext ℕ
context = record {
  sched = record { handle_q = []; fn_q = []; stop_requested = true; running = false };
  cpu_pool_ptr = some 0;
  timer_ptr = none;
  signals_ptr = none;
  net_ptr = some 1;
  shutdown_done = true;
  next = 2;
  destroyed = [];
}

abbrev waiting : Runtime ℕ
waiting = record {
  c = context;
  pool = pool;
  timer = Loop.start 0 [];
  sigs = Worker.start;
  netsvc = Net.stop Net.new_service;
  net_asks = false;
  phase = joining net (signals ∷ timers ∷ cpu_pool ∷ []);
}

-- The other worker takes the queued callable.
abbrev moved : Runtime ℕ
moved = record waiting {
  pool = record pool { q = []; threads = working 4 ∷ working 1 ∷ []; started = 1 ∷ 4 ∷ [] };
}

shutdown_deadlocks_example :
    Waits asks moved
    × (is_idle moved.phase ≡ false)
    × ((v : Service) → advance asks (calls (gets v)) moved ≡ none)
    × (advance asks (calls shuts_down) moved ≡ none)
unfolding advance advances Pool.step
shutdown_deadlocks_example =
    shutdown_deadlocks asks (of_pool (Pool.takes 0) ∷ []) waiting moved
      (inl (1, 1, refl, (refl, refl, refl))) refl

abbrev before : Runtime ℕ
before = record waiting {
  c = record context { shutdown_done = false };
  netsvc = Net.new_service;
  phase = idle;
}

shutdown_returns_example :
    (es : List (Event ℕ)) × (t : Runtime ℕ) × (advances (λ f. false) (calls shuts_down ∷ es) before
      ≡ some t)
    × (t.phase ≡ idle)
    × (t.c ≡ shutdown before.c)
shutdown_returns_example =
    shutdown_returns (λ f. false) (λ f. refl) before refl refl refl (λ h. cc h) (λ observed h. cc h)
      (λ h. cc h)
