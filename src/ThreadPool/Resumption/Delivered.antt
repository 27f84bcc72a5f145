-- ===== src/ThreadPool/Resumption/Delivered.antt =====
-- The coroutines of the jobs in the queue of the scheduler.
use async.Prelude.{
  ℕ, ◌+◌, ◌≡◌, refl, inl, inr, Option, none, some, List, [], ◌∷◌, ◌++◌, arith, ◌==◌, if◌then◌else◌,
  Option-cases, get_elem?, append_assoc, count, count-append,
}
use async.Scheduler.{Handle, take, take_from, post, post_handle}
use async.ThreadPool.{Pc, at_lock, working, exited, ThreadPool, Event, finishes, finish_at}
use async.ThreadPool as Pool
use async.ThreadPool.Awaitable.{run_job, new_awaitable, await_resume}
use async.ThreadPool.Resumption.{
  Job, System, Happening, on_pool, cancels, serves, posts_handle, posts, served, run_at, effect,
  step, steps,
}
use async.ThreadPool.Resumption.Balance.{posted, posted-append}

module _ {E R F : Type 0} where
  -- How often `h` is posted by others than the pool.
  abbrev pub others : Handle → List (Happening E R F) → ℕ
  others h [] = 0
  others h (posts_handle g ∷ xs) = (if g == h then 1 else 0) + others h xs
  others h (x ∷ xs) = others h xs

  others-cons :
      (h : Handle) (x : Happening E R F) (xs : List (Happening E R F))
      → others h (x ∷ xs) ≡ others h (x ∷ []) + others h xs
  others-cons h (posts_handle g) xs = omega arith
  others-cons h _ xs = omega arith

  -- How often the scheduler has resumed `h`, or is going to.
  abbrev pub delivered : Handle → System E R F → ℕ
  delivered h s = count h (s.resumed ++ s.sched.handle_q)

  -- A step with `k` posts by others.
  abbrev Delivers : Handle → ℕ → System E R F → System E R F → Type 0
  Delivers h k s t = delivered h t + posted h s.ended ≡ delivered h s + posted h t.ended + k

  delivered-parts :
      (h : Handle) (s : System E R F) → delivered h s ≡ count h s.resumed + count h s.sched.handle_q
  delivered-parts h s = count-append h s.resumed s.sched.handle_q

  run_at-Delivers :
      (h : Handle) (pc : Option (Pc (Job E R))) (s : System E R F) (p : ThreadPool (Job E R))
      → Delivers h 0 s (record (run_at pc s) { pool = p })
  unfolding run_job post_handle
  run_at-Delivers h none s p = omega arith
  run_at-Delivers h (some at_lock) s p = omega arith
  run_at-Delivers h (some exited) s p = omega arith
  run_at-Delivers h (some (working j)) s p =
      let r = run_job s.flags (some j.h) (new_awaitable j.ct j.fn) s.sched in
      omega (
        arith,
        posted-append h s.ended j (await_resume r.0),
        count-append h s.resumed s.sched.handle_q,
        count-append h s.resumed (s.sched.handle_q ++ j.h ∷ []),
        count-append h s.sched.handle_q (j.h ∷ []),
      )

  effect-Delivers :
      (h : Handle) (e : Event (Job E R)) (s : System E R F) (p : ThreadPool (Job E R))
      → Delivers h 0 s (record (effect e s) { pool = p })
  effect-Delivers h (finishes i) s p = run_at-Delivers h (get_elem? s.pool.threads i) s p
  effect-Delivers h _ s p = omega arith

  served-Delivers :
      (h : Handle) (q : List Handle) (fs : List (Option F)) (s t : System E R F)
      → s.sched.handle_q ≡ q
      → served (take_from q fs s.sched) s ≡ some t
      → Delivers h 0 s t
  served-Delivers h (g ∷ q) fs s t e p = ground (arith, append_assoc s.resumed (g ∷ []) q)
  served-Delivers h [] (f ∷ fs) s t e p = ground arith
  served-Delivers h [] [] s t e p = ground arith

  pub step-Delivers :
      (h : Handle) (x : Happening E R F) (s t : System E R F)
      → step x s ≡ some t
      → Delivers h (others h (x ∷ [])) s t
  unfolding step take post post_handle
  step-Delivers h (on_pool e) s t p = elim (Option-cases (Pool.step e s.pool)) [
    | inl q ↦ cc (rw (q, step) at p)
    | inr (u, q) ↦ ground (arith, effect-Delivers h e s u)
  ]
  step-Delivers h (cancels c) s t p = ground arith
  step-Delivers h serves s t p = served-Delivers h s.sched.handle_q s.sched.fn_q s t refl p
  step-Delivers h (posts f) s t p = ground arith
  step-Delivers h (posts_handle g) s t p = ground (
    arith,
    count-append h s.resumed s.sched.handle_q,
    count-append h s.resumed (s.sched.handle_q ++ g ∷ []),
    count-append h s.sched.handle_q (g ∷ []),
  )

  pub steps-Delivers :
      (h : Handle) (xs : List (Happening E R F)) (s t : System E R F)
      → steps xs s ≡ some t
      → Delivers h (others h xs) s t
  unfolding steps
  steps-Delivers h [] s t p = ground arith
  steps-Delivers h (x ∷ xs) s t p = elim (Option-cases (step x s)) [
    | inl q ↦ cc (rw (q, steps) at p)
    | inr (u, q) ↦ omega (
      arith,
      step-Delivers h x s u q,
      steps-Delivers h xs u t (rw (q, steps) at p),
      others-cons h x xs,
    )
  ]
