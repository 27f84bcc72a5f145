-- ===== src/IoContext/Teardown/Lifted.antt =====
-- Runs of the whole, and the steps of one service as steps of it.
use async.Prelude.{
  ◌≡◌, refl, inl, inr, Bool, true, false, Option, none, some, List, [], ◌∷◌, ◌++◌, map, arith,
  Option-cases, get_elem?, is_some,
}
use async.ThreadPool.{ThreadPool, Pc, working, begin_shutdown, joinable_all}
use async.ThreadPool.Termination as PoolEnd
use async.ThreadPool as Pool
use async.Timer.Loop
use async.Signal.Worker
use async.Signal.Worker.{join_at, absent, at_lock, in_sigwait, holding, exited}
use async.IoContext.Teardown.{
  Runtime, Event, of_pool, of_timer, of_signals, pool_step, advance, advances,
}

module _ {F : Type 0} (asks : F → Bool) where
  pub advances-append :
      (es fs : List (Event F)) (s t u : Runtime F)
      → advances asks es s ≡ some t
      → advances asks fs t ≡ some u
      → advances asks (es ++ fs) s ≡ some u
  unfolding advances
  advances-append [] fs s t u p q = ground (arith, p, q)
  advances-append (e ∷ es) fs s t u p q = elim (Option-cases (advance asks e s)) [
    | inl r ↦ cc (rw (r, advances) at p)
    | inr (v, r) ↦ ground (arith, r, advances-append es fs v t u (rw (r, advances) at p) q)
  ]

  pub advances-cons :
      (e : Event F) (es : List (Event F)) (s t u : Runtime F)
      → advance asks e s ≡ some t
      → advances asks es t ≡ some u
      → advances asks (e ∷ es) s ≡ some u
  unfolding advances
  advances-cons e es s t u p q = ground (arith, p, q)

  pub advances-one :
      (e : Event F) (s t : Runtime F)
      → advance asks e s ≡ some t
      → advances asks (e ∷ []) s ≡ some t
  unfolding advances
  advances-one e s t p = ground (arith, p)

  -- Steps of the timer's thread, as steps of the whole.
  pub advances-of_timer :
      (es : List (Loop.Event F)) (s : Runtime F) (t : Loop.System F)
      → is_some s.c.timer_ptr ≡ true
      → Loop.steps es s.timer ≡ some t
      → advances asks (map of_timer es) s ≡ some (record s { timer = t })
  unfolding advances Loop.steps advance
  advances-of_timer [] s t here p = ground (arith, p)
  advances-of_timer (e ∷ es) s t here p = elim (Option-cases (Loop.step e s.timer)) [
    | inl r ↦ cc (rw (r, Loop.steps) at p)
    | inr (v, r) ↦ ground (
      arith,
      r,
      here,
      advances-of_timer es (record s { timer = v }) t here (rw (r, Loop.steps) at p),
    )
  ]

  pub advances-of_signals :
      (es : List Worker.Event) (s : Runtime F) (t : Worker.System)
      → is_some s.c.signals_ptr ≡ true
      → Worker.steps es s.sigs ≡ some t
      → advances asks (map of_signals es) s ≡ some (record s { sigs = t })
  unfolding advances Worker.steps advance
  advances-of_signals [] s t here p = ground (arith, p)
  advances-of_signals (e ∷ es) s t here p = elim (Option-cases (Worker.step e s.sigs)) [
    | inl r ↦ cc (rw (r, Worker.steps) at p)
    | inr (v, r) ↦ ground (
      arith,
      r,
      here,
      advances-of_signals es (record s { sigs = v }) t here (rw (r, Worker.steps) at p),
    )
  ]

  module _ (quiet : (f : F) → asks f ≡ false) where
    pool_step-by_worker :
        (e : Pool.Event F) (s : Runtime F)
        → PoolEnd.by_worker e ≡ true
        → pool_step asks e s ≡ Pool.step e s.pool
    pool_step-by_worker (Pool.takes i) s w = refl
    pool_step-by_worker (Pool.finishes i) s w = by_thread (get_elem? s.pool.threads i) refl
      where
        by_thread :
            (o : Option (Pc F))
            → get_elem? s.pool.threads i ≡ o
            → pool_step asks (Pool.finishes i) s ≡ Pool.step (Pool.finishes i) s.pool
        by_thread none e = ground (arith, e)
        by_thread (some (working f)) e = ground (arith, e, quiet f)
        by_thread (some _) e = ground (arith, e)
    pool_step-by_worker _ s w = cc

    pub advances-of_pool :
        (es : List (Pool.Event F)) (s : Runtime F) (t : ThreadPool F)
        → is_some s.c.cpu_pool_ptr ≡ true
        → PoolEnd.all_by_worker es ≡ true
        → Pool.steps es s.pool ≡ some t
        → advances asks (map of_pool es) s ≡ some (record s { pool = t })
    unfolding advances Pool.steps advance
    advances-of_pool [] s t here w p = ground (arith, p)
    advances-of_pool (e ∷ es) s t here w p = elim (Option-cases (Pool.step e s.pool)) [
      | inl r ↦ cc (rw (r, Pool.steps) at p)
      | inr (v, r) ↦ ground (
        arith,
        r,
        here,
        pool_step-by_worker e s (ground (arith, w)),
        advances-of_pool es (record s { pool = v }) t here (ground (arith, w))
            (rw (r, Pool.steps) at p),
      )
    ]
