-- ===== src/IoContext/Teardown/Completes.antt =====
-- When the shutdown returns.
use async.Prelude.{ℕ, ◌≡◌, refl, ◌≢◌, Bool, true, false, some, List, [], ◌∷◌, ◌++◌, arith}
use async.Scheduler
use async.Signal.Worker.{in_sigwait}
use async.IoContext.{cpu_pool, timers, signals, net, tear_down, shutdown, shuts_down}
use async.IoContext.Teardown.{idle, stopping, Runtime, Event, calls, advance, advances}
use async.IoContext.Teardown.Lifted.{advances-append, advances-cons}
use async.IoContext.Teardown.Destructors.{close_net, close_signals, close_timers, close_pool}

module _ {F : Type 0} (asks : F → Bool) where
  module _ (quiet : (f : F) → asks f ≡ false) where
    -- Where no callable that is given to the pool asks for a service of the context: a shutdown
    -- that begins with no handler of the network thread in an access to the context, and with no
    -- signal worker in `sigwait`, can return, wherever else the threads of the services stand and
    -- however many such callables are queued; and it leaves the context as the shutdown in one step
    -- does. The flags of the network service and of the pool are those of a context that is open:
    -- a stop of either has ended what it ends.
    pub shutdown_returns :
        (s : Runtime F)
        → s.phase ≡ idle
        → s.c.shutdown_done ≡ false
        → s.net_asks ≡ false
        → (s.netsvc.stopped ≡ true → s.netsvc.ioc_stopped ≡ true)
        → ((observed : List ℕ) → s.sigs.pc ≢ in_sigwait observed)
        → (s.pool.shutdown_done ≡ true → s.pool.stop ≡ true)
        → (es : List (Event F)) × (t : Runtime F) × (advances asks (calls shuts_down ∷ es) s
            ≡ some t)
          × (t.phase ≡ idle)
          × (t.c ≡ shutdown s.c)
    unfolding shutdown
    shutdown_returns s at open' free released apart ordered =
        let s0 = record s {
          c = record s.c { shutdown_done = true; sched = Scheduler.stop s.c.sched };
          phase = stopping net (signals ∷ timers ∷ cpu_pool ∷ []);
        } in
        let (es1, n, r1) =
          close_net asks (signals ∷ timers ∷ cpu_pool ∷ []) s0 refl free released in
        let s1 = record s0 {
          netsvc = n;
          c = tear_down net s0.c;
          phase = stopping signals (timers ∷ cpu_pool ∷ []);
        } in
        let (es2, w, r2) = close_signals asks (timers ∷ cpu_pool ∷ []) s1 refl apart in
        let s2 = record s1 {
          sigs = w;
          c = tear_down signals s1.c;
          phase = stopping timers (cpu_pool ∷ []);
        } in
        let (es3, m, r3) = close_timers asks (cpu_pool ∷ []) s2 refl in
        let s3 = record s2 { timer = m; c = tear_down timers s2.c; phase = stopping cpu_pool [] } in
        let (es4, p, r4) = close_pool asks quiet [] s3 refl ordered in
        let s4 = record s3 { pool = p; c = tear_down cpu_pool s3.c; phase = idle } in
        let begun : advance asks (calls shuts_down) s ≡ some s0 =
          unfold advance in ground (arith, at, open') in
        (
          es1 ++ (es2 ++ (es3 ++ es4)),
          s4,
          advances-cons asks (calls shuts_down) _ s s0 s4 begun (
              advances-append asks es1 _ s0 s1 s4 r1 (
                advances-append asks es2 _ s1 s2 s4 r2
                  (advances-append asks es3 es4 s2 s3 s4 r3 r4))),
          refl,
          ground (arith, open'),
        )
