-- ===== src/ThreadPool/Resumption/Complete.antt =====
-- Every accepted job leads to one resumption of its coroutine.
use async.Prelude.{
  ℕ, ◌+◌, ◌++◌, count, ◌≡◌, refl, ◌⊎◌, inl, inr, true, Option, none, some, List, [], ◌∷◌, arith,
  ◌==◌, if◌then◌else◌, Bool-cases, Option-cases, get_elem?, Each, Each-append,
}
use async.Completion.{Completion, throws, system_error}
use async.Cancel.{States, is_cancelled, cancelled_ec, CancelSource, request_cancel}
use async.Cancel.Sharing.{request_cancel-stays}
use async.Scheduler.{Scheduler, Handle, Item, handle, callable, leave, nothing, take}
use async.ThreadPool.{
  Pc, at_lock, working, exited, ThreadPool, Event, submits, stops, shuts_down, joins, takes,
  finishes, new_pool, take_from, finish_at,
}
use async.ThreadPool as Pool
use async.ThreadPool.Fifo.{accepted}
use async.ThreadPool.Shutdown.{shutdown_complete}
use async.ThreadPool.Awaitable.{run_job, new_awaitable, await_resume, ended, submit_outcome}
use async.ThreadPool.Resumption.{
  Job, System, Happening, on_pool, cancels, serves, posts_handle, posts, served, start, run_at,
  effect, step, steps, pool_events,
}
use async.ThreadPool.Resumption.Delivered.{others, step-Delivers, steps-Delivers}
use async.ThreadPool.Resumption.Balance.{
  awaits, posted, running-all_exited, running-replicate, Balanced, step-Balanced, steps-Balanced,
}

module _ {E R : Type 0} where
  -- The coroutine of a job gets what the callable ended with, or the cancellation of its token.
  abbrev pub Gets : States → Job E R × Completion E R → Type 0
  Gets flags (j, o) =
      (o ≡ ended j.fn)
      ⊎ ((o ≡ throws (system_error cancelled_ec)) × (is_cancelled flags j.ct ≡ true))

  Each-Gets-request_cancel :
      (flags : States) (c : CancelSource) (js : List (Job E R × Completion E R))
      → Each (Gets flags) js
      → Each (Gets (request_cancel flags c)) js
  Each-Gets-request_cancel flags c [] g = tt
  Each-Gets-request_cancel flags c ((j, o) ∷ js) (inl v, g) =
      (inl v, Each-Gets-request_cancel flags c js g)
  Each-Gets-request_cancel flags c ((j, o) ∷ js) (inr (v, k), g) =
      (inr (v, request_cancel-stays flags c j.ct k), Each-Gets-request_cancel flags c js g)

module _ {E R F : Type 0} where
  step-pool :
      (e : Event (Job E R)) (s t : System E R F)
      → step (on_pool e) s ≡ some t
      → Pool.step e s.pool ≡ some t.pool
  unfolding step
  step-pool e s t p = elim (Option-cases (Pool.step e s.pool)) [
    | inl q ↦ cc (rw (q, step) at p)
    | inr (u, q) ↦ ground arith
  ]

  served-same :
      (i : Item F × Scheduler F) (s t : System E R F)
      → served i s ≡ some t
      → (s.pool ≡ t.pool) × (t.flags ≡ s.flags) × (t.ended ≡ s.ended)
  served-same (handle h, q) s t p = ground arith
  served-same (callable f, q) s t p = ground arith
  served-same (leave, q) s t p = cc
  served-same (nothing, q) s t p = cc

  steps-pool :
      (xs : List (Happening E R F)) (s t : System E R F)
      → steps xs s ≡ some t
      → Pool.steps (pool_events xs) s.pool ≡ some t.pool
  unfolding steps step Pool.steps
  steps-pool [] s t p = ground arith
  steps-pool (on_pool e ∷ xs) s t p = elim (Option-cases (Pool.step e s.pool)) [
    | inl q ↦ cc (rw (q, steps, step) at p)
    | inr (u, q) ↦
        rw (q, Pool.steps)
          (steps-pool xs (record (effect e s) { pool = u }) t (rw (q, steps, step) at p))
  ]
  steps-pool (cancels c ∷ xs) s t p = steps-pool xs _ t p
  steps-pool (serves ∷ xs) s t p = elim (Option-cases (served (take s.sched) s)) [
    | inl q ↦ cc (rw (q, steps, step) at p)
    | inr (u, q) ↦
        rw (served-same (take s.sched) s u q).0 (steps-pool xs u t (rw (q, steps, step) at p))
  ]
  steps-pool (posts_handle h ∷ xs) s t p = steps-pool xs _ t p
  steps-pool (posts f ∷ xs) s t p = steps-pool xs _ t p

  run_at-Gets :
      (pc : Option (Pc (Job E R))) (s : System E R F)
      → Each (Gets s.flags) s.ended
      → Each (Gets s.flags) (run_at pc s).ended
  run_at-Gets none s g = g
  run_at-Gets (some at_lock) s g = g
  run_at-Gets (some exited) s g = g
  run_at-Gets (some (working j)) s g =
      let r = run_job s.flags (some j.h) (new_awaitable j.ct j.fn) s.sched in
      Each-append (Gets s.flags) s.ended ((j, await_resume r.0) ∷ []) g (
        elim (Bool-cases (is_cancelled s.flags j.ct)) [
          | inl c ↦ inr (ground (arith, (submit_outcome s.flags j.ct j.fn (some j.h) s.sched).1), c)
          | inr live ↦ inl (ground (arith, (submit_outcome s.flags j.ct j.fn (some j.h) s.sched).1))
        ],
        tt,
      )

  run_at-flags : (pc : Option (Pc (Job E R))) (s : System E R F) → (run_at pc s).flags ≡ s.flags
  run_at-flags none s = refl
  run_at-flags (some at_lock) s = refl
  run_at-flags (some exited) s = refl
  run_at-flags (some (working j)) s = refl

  abbrev Settled : System E R F → Type 0
  Settled s = Each (Gets s.flags) s.ended

  effect-Settled :
      (e : Event (Job E R)) (s : System E R F) (p : ThreadPool (Job E R))
      → Settled s
      → Settled (record (effect e s) { pool = p })
  effect-Settled (finishes i) s p g =
      let pc = get_elem? s.pool.threads i in rw (run_at-flags pc s) (run_at-Gets pc s g)
  effect-Settled _ s p g = g

  step-Settled :
      (x : Happening E R F) (s t : System E R F) → step x s ≡ some t → Settled s → Settled t
  unfolding step
  step-Settled (on_pool e) s t p g = elim (Option-cases (Pool.step e s.pool)) [
    | inl q ↦ cc (rw (q, step) at p)
    | inr (u, q) ↦ ground (arith, effect-Settled e s u g)
  ]
  step-Settled (cancels c) s t p g = ground (arith, Each-Gets-request_cancel s.flags c s.ended g)
  step-Settled serves s t p g =
      let (_, flags, ended) = served-same (take s.sched) s t p in rw (flags, ended) g
  step-Settled (posts_handle h) s t p g = ground (arith, g)
  step-Settled (posts f) s t p g = ground (arith, g)

  steps-Settled :
      (xs : List (Happening E R F)) (s t : System E R F)
      → steps xs s ≡ some t
      → Settled s
      → Settled t
  unfolding steps
  steps-Settled [] s t p g = ground (arith, g)
  steps-Settled (x ∷ xs) s t p g = elim (Option-cases (step x s)) [
    | inl q ↦ cc (rw (q, steps) at p)
    | inr (u, q) ↦ steps-Settled xs u t (rw (q, steps) at p) (step-Settled x s u q g)
  ]

  -- On a new pool and an empty scheduler, under any interleaving of the workers with submissions,
  -- cancellations, stops, the loop of the scheduler and posts of others: once a shutdown by a thread
  -- that is no worker gets through its joins, every coroutine has been resumed, or stands in the
  -- scheduler's queue, as often as it awaits a job that was submitted before the first stop, and as
  -- often as others have posted it, and not more. Each of its jobs has left it the end of its
  -- callable, or the cancellation where its token is cancelled.
  pub submits_resumed :
      (n : ℕ) (flags : States) (xs : List (Happening E R F)) (s t : System E R F) (h : Handle)
      → steps xs (start n flags) ≡ some s
      → step (on_pool (joins none)) s ≡ some t
      → (count h (t.resumed ++ t.sched.handle_q)
          ≡ awaits h (accepted (pool_events xs)) + others h xs)
        × (posted h t.ended ≡ awaits h (accepted (pool_events xs)))
        × Each (Gets t.flags) t.ended
  unfolding start
  submits_resumed n flags xs s t h p j =
      let s0 = start {E = E} {R = R} {F = F} n flags in
      let b0 : Balanced h s0 =
        omega (arith, running-replicate {E = E} {R = R} h (if n == 0 then 1 else n) at_lock refl) in
      let b =
        step-Balanced h (on_pool (joins none)) s t j (steps-Balanced h xs (start n flags) s p b0) in
      let jp = step-pool (joins none) s t j in
      let (left, _, took, _) =
        shutdown_complete n (pool_events xs) s.pool t.pool (steps-pool xs (start n flags) s p) jp in
      let ran : posted h t.ended ≡ awaits h (accepted (pool_events xs)) =
        ground (arith, b, left, took, running-all_exited h t.pool.threads) in
      (
        omega
            (arith, ran, steps-Delivers h xs s0 s p, step-Delivers h (on_pool (joins none)) s t j),
        ran,
        step-Settled (on_pool (joins none)) s t j (steps-Settled xs (start n flags) s p tt),
      )
