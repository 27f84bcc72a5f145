-- ===== src/IoContext/Teardown/Destructors.antt =====
-- The destructors, one service at a time: each can get through its join.
use async.Prelude.{
  ℕ, ◌≡◌, refl, ◌∙◌, ◌≢◌, inl, inr, Bool, true, false, none, some, List, [], ◌∷◌, ◌++◌, map, arith,
  Bool-cases, Option-cases, is_some,
}
use async.ThreadPool.{ThreadPool, Pc, working, begin_shutdown, joinable_all}
use async.ThreadPool.Termination as PoolEnd
use async.ThreadPool as Pool
use async.Timer as Timer
use async.Timer.Loop
use async.Timer.Loop.Shutdown as TimerEnd
use async.Signal as Signal
use async.Signal.Worker
use async.Signal.Worker.{join_at, absent, at_lock, in_sigwait, holding, exited}
use async.Net.Service as Net
use async.IoContext.{Service, cpu_pool, timers, signals, net, slot, tear_down}
use async.IoContext.Teardown.{
  stopping, joining, Runtime, Event, stops_service, joins_service, of_pool, of_timer, of_signals,
  of_net, next, stop_of, join_of, advance, advances,
}
use async.IoContext.Teardown.Lifted.{
  advances-append, advances-cons, advances-one, advances-of_timer, advances-of_signals,
  advances-of_pool,
}

module _ {F : Type 0} (asks : F → Bool) where
  -- A worker that is not in `sigwait` can return.
  worker_leaves :
      (pc : Worker.Pc) (w : Worker.System)
      → w.pc ≡ pc
      → w.set.stop ≡ true
      → ((observed : List ℕ) → pc ≢ in_sigwait observed)
      → (es : List Worker.Event) × (t : Worker.System) × (Worker.steps es w ≡ some t)
        × (join_at t.pc false t ≡ some t)
  unfolding Worker.steps Worker.step
  worker_leaves absent w at stopped free = ([], w, refl, ground (arith, at))
  worker_leaves exited w at stopped free = ([], w, refl, ground (arith, at))
  worker_leaves at_lock w at stopped free =
      (Worker.copies ∷ [], record w { pc = exited }, ground (arith, at), refl)
  worker_leaves (holding sig) w at stopped free =
      (Worker.queues ∷ [], record w { pc = exited }, ground (arith, at), refl)
  worker_leaves (in_sigwait observed) w at stopped free = absurd (free observed refl)

  net_leaves :
      (s : Runtime F)
      → is_some s.c.net_ptr ≡ true
      → s.net_asks ≡ false
      → s.netsvc.ioc_stopped ≡ true
      → (es : List (Event F)) × (n : Net.Service) × (advances asks es s
          ≡ some (record s { netsvc = n }))
        × (n.running ≡ false)
  unfolding advances advance Net.step
  net_leaves s here free stopped = elim (Bool-cases s.netsvc.running) [
    | inl on' ↦
        (of_net (Net.run_ends true) ∷ [], record s.netsvc { running = false }, ground arith, refl)
    | inr off' ↦ ([], s.netsvc, refl, off')
  ]

  join_net :
      (t : Runtime F)
      → t.netsvc.running ≡ false
      → (n : Net.Service) × (join_of net t ≡ some (record t { netsvc = n }))
  unfolding Net.join
  join_net t off' = elim (Bool-cases t.netsvc.joinable) [
    | inl on' ↦ (record t.netsvc { joinable = false }, ground arith)
    | inr done ↦ (t.netsvc, ground arith)
  ]

  -- The destructor of a service that was never made.
  skips :
      (v : Service) (rest : List Service) (s : Runtime F)
      → s.phase ≡ stopping v rest
      → slot v s.c ≡ none
      → advances asks (stops_service ∷ []) s
        ≡ some (record s { c = tear_down v s.c; phase = next rest })
  unfolding advances advance
  skips net rest s at e = ground (arith, at, e)
  skips signals rest s at e = ground (arith, at, e)
  skips timers rest s at e = ground (arith, at, e)
  skips cpu_pool rest s at e = ground (arith, at, e)

  -- A destructor between its two parts.
  destroys :
      (v : Service) (rest : List Service) (p : ℕ) (es : List (Event F)) (s t u : Runtime F)
      → s.phase ≡ stopping v rest
      → slot v s.c ≡ some p
      → advances asks es (record (stop_of v s) { phase = joining v rest }) ≡ some t
      → t.phase ≡ joining v rest
      → join_of v t ≡ some u
      → advances asks (stops_service ∷ (es ++ joins_service ∷ [])) s
        ≡ some (record u { c = tear_down v u.c; phase = next rest })
  destroys v rest p es s t u at e run at' j =
      advances-cons asks stops_service _ s _ _ stopped
        (advances-append asks es _ _ t _ run (advances-one asks joins_service t _ joined))
    where
      stopped :
          advance asks stops_service s ≡ some (record (stop_of v s) { phase = joining v rest })
      stopped = unfold advance in ground (arith, at, e)

      joined :
          advance asks joins_service t ≡ some (record u { c = tear_down v u.c; phase = next rest })
      joined = unfold advance in ground (arith, at', j)

  join_timers : (t : Runtime F) → t.timer.pc ≡ Loop.exited → join_of timers t ≡ some t
  unfolding TimerEnd.release
  join_timers t e = ground (arith, e)

  join_pool :
      (t : Runtime F)
      → t.pool.shutdown_done ≡ true
      → joinable_all none 0 t.pool.threads ≡ true
      → join_of cpu_pool t ≡ some (record t { pool = record t.pool { workers = 0 } })
  unfolding Pool.step
  join_pool t d j = ground (arith, d, j)

  pub close_timers :
      (rest : List Service) (s : Runtime F)
      → s.phase ≡ stopping timers rest
      → (es : List (Event F)) × (t : Loop.System F) × (advances asks es s
          ≡ some (record s { timer = t; c = tear_down timers s.c; phase = next rest }))
  unfolding Timer.stop
  close_timers rest s at = elim (Option-cases (slot timers s.c)) [
    | inl e ↦ (stops_service ∷ [], s.timer, skips timers rest s at e)
    | inr (p, e) ↦
        let halted = record s.timer { timer = Timer.stop s.timer.timer } in
        let (es, t, run, done) = TimerEnd.can_exit halted refl in
        let mid = record (stop_of timers s) { phase = joining timers rest } in
        let lifted = advances-of_timer asks es mid t (ground (arith, e)) run in
        let end = record mid { timer = t } in
        (
          _,
          t,
          destroys timers rest p (map of_timer es) s end end at e lifted refl
              (join_timers end done),
        )
  ]

  pub close_signals :
      (rest : List Service) (s : Runtime F)
      → s.phase ≡ stopping signals rest
      → ((observed : List ℕ) → s.sigs.pc ≢ in_sigwait observed)
      → (es : List (Event F)) × (w : Worker.System) × (advances asks es s
          ≡ some (record s { sigs = w; c = tear_down signals s.c; phase = next rest }))
  unfolding Signal.stop
  close_signals rest s at free = elim (Option-cases (slot signals s.c)) [
    | inl e ↦ (stops_service ∷ [], s.sigs, skips signals rest s at e)
    | inr (p, e) ↦
        let mid = record (stop_of signals s) { phase = joining signals rest } in
        let (es, w, run, done) = worker_leaves s.sigs.pc (stop_of signals s).sigs refl refl free in
        let lifted = advances-of_signals asks es mid w (ground (arith, e)) run in
        let end = record mid { sigs = w } in
        (
          _,
          w,
          destroys signals rest p (map of_signals es) s end end at e lifted refl
              (ground (arith, done)),
        )
  ]

  pub close_net :
      (rest : List Service) (s : Runtime F)
      → s.phase ≡ stopping net rest
      → s.net_asks ≡ false
      → (s.netsvc.stopped ≡ true → s.netsvc.ioc_stopped ≡ true)
      → (es : List (Event F)) × (n : Net.Service) × (advances asks es s
          ≡ some (record s { netsvc = n; c = tear_down net s.c; phase = next rest }))
  unfolding Net.stop
  close_net rest s at free released = elim (Option-cases (slot net s.c)) [
    | inl e ↦ (stops_service ∷ [], s.netsvc, skips net rest s at e)
    | inr (p, e) ↦
        let mid = record (stop_of net s) { phase = joining net rest } in
        let (es, n, run, done) =
          net_leaves mid (ground (arith, e)) free (ground (arith, released)) in
        let end = record mid { netsvc = n } in
        let (n', j) = join_net end done in
        (_, n', destroys net rest p es s end (record end { netsvc = n' }) at e run refl j)
  ]

  module _ (quiet : (f : F) → asks f ≡ false) where
    pub close_pool :
        (rest : List Service) (s : Runtime F)
        → s.phase ≡ stopping cpu_pool rest
        → (s.pool.shutdown_done ≡ true → s.pool.stop ≡ true)
        → (es : List (Event F)) × (q : ThreadPool F) × (advances asks es s
            ≡ some (record s { pool = q; c = tear_down cpu_pool s.c; phase = next rest }))
    unfolding begin_shutdown
    close_pool rest s at ordered = elim (Option-cases (slot cpu_pool s.c)) [
      | inl e ↦ (stops_service ∷ [], s.pool, skips cpu_pool rest s at e)
      | inr (p, e) ↦
          let halted : (begin_shutdown s.pool).stop ≡ true = ground (arith, ordered) in
          let begun : (begin_shutdown s.pool).shutdown_done ≡ true = ground arith in
          let (es, q, all, run, done, same) = PoolEnd.can_leave (begin_shutdown s.pool) halted in
          let mid = record (stop_of cpu_pool s) { phase = joining cpu_pool rest } in
          let lifted = advances-of_pool asks quiet es mid q (ground (arith, e)) all run in
          let end = record mid { pool = q } in
          (
            _,
            _,
            destroys cpu_pool rest p (map of_pool es) s end _ at e lifted refl
                (join_pool end (same ∙ begun) done),
          )
    ]
