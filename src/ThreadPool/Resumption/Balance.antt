-- ===== src/ThreadPool/Resumption/Balance.antt =====
-- What has run and what is being run are what the workers took.
use async.Prelude.{
  ℕ, zero, suc, ◌+◌, ◌≡◌, refl, inl, inr, true, Option, none, some, List, [], ◌∷◌, ◌++◌, arith,
  ◌==◌, if◌then◌else◌, Option-cases, get_elem?, set, replicate,
}
use async.Completion.{Completion}
use async.Scheduler.{Scheduler, Handle, Item, handle, callable, leave, nothing, take}
use async.ThreadPool.{
  Pc, at_lock, working, exited, ThreadPool, Event, submits, stops, shuts_down, joins, takes,
  finishes, new_pool, take_from, finish_at,
}
use async.ThreadPool as Pool
use async.ThreadPool.Fifo.{step-takes}
use async.ThreadPool.Shutdown.{all_exited}
use async.ThreadPool.Awaitable.{run_job, new_awaitable, await_resume}
use async.ThreadPool.Resumption.{
  Job, System, Happening, on_pool, cancels, serves, posts_handle, posts, served, run_at, step,
  steps,
}

module _ {E R : Type 0} where
  -- How often the coroutine `h` awaits one of the jobs.
  abbrev pub awaits : Handle → List (Job E R) → ℕ
  awaits h [] = 0
  awaits h (j ∷ js) = (if j.h == h then 1 else 0) + awaits h js

  awaits-append :
      (h : Handle) (js : List (Job E R)) (j : Job E R)
      → awaits h (js ++ j ∷ []) ≡ awaits h js + (if j.h == h then 1 else 0)
  awaits-append h [] j = omega arith
  awaits-append h (x ∷ js) j = omega (arith, awaits-append h js j)

  -- How often a job of `h` has run.
  abbrev pub posted : Handle → List (Job E R × Completion E R) → ℕ
  posted h [] = 0
  posted h ((j, o) ∷ js) = (if j.h == h then 1 else 0) + posted h js

  pub posted-append :
      (h : Handle) (js : List (Job E R × Completion E R)) (j : Job E R) (o : Completion E R)
      → posted h (js ++ (j, o) ∷ []) ≡ posted h js + (if j.h == h then 1 else 0)
  posted-append h [] j o = omega arith
  posted-append h ((x, y) ∷ js) j o = omega (arith, posted-append h js j o)

  abbrev pub in_thread : Handle → Pc (Job E R) → ℕ
  in_thread h (working j) = if j.h == h then 1 else 0
  in_thread h _ = 0

  abbrev pub running : Handle → List (Pc (Job E R)) → ℕ
  running h [] = 0
  running h (p ∷ ps) = in_thread h p + running h ps

  running-set :
      (h : Handle) (ps : List (Pc (Job E R))) (i : ℕ) (p q : Pc (Job E R))
      → get_elem? ps i ≡ some p
      → running h (set ps i q) + in_thread h p ≡ running h ps + in_thread h q
  running-set h [] i p q e = cc
  running-set h (x ∷ ps) zero p q e = ground arith
  running-set h (x ∷ ps) (suc i) p q e = omega (arith, running-set h ps i p q e)

  pub running-all_exited :
      (h : Handle) (ps : List (Pc (Job E R))) → all_exited ps ≡ true → running h ps ≡ 0
  running-all_exited h [] e = refl
  running-all_exited h (exited ∷ ps) e = omega (arith, running-all_exited h ps e)
  running-all_exited h (at_lock ∷ ps) e = cc
  running-all_exited h (working j ∷ ps) e = cc

  pub running-replicate :
      (h : Handle) (n : ℕ) (p : Pc (Job E R)) → in_thread h p ≡ 0 → running h (replicate n p) ≡ 0
  running-replicate h zero p e = refl
  running-replicate h (suc n) p e = omega (arith, running-replicate h n p e)

module _ {E R F : Type 0} where
  -- What has run and what is being run are what the workers took.
  abbrev pub Balanced : Handle → System E R F → Type 0
  Balanced h s = posted h s.ended + running h s.pool.threads ≡ awaits h s.pool.started

  take_from-Balanced :
      (h : Handle) (i : ℕ) (q : List (Job E R)) (s : System E R F)
      → get_elem? s.pool.threads i ≡ some at_lock
      → Balanced h s
      → Balanced h (record s { pool = take_from q i s.pool })
  take_from-Balanced h i [] s e b = ground (arith, running-set h s.pool.threads i at_lock exited)
  take_from-Balanced h i (j ∷ q) s e b =
      ground (
        arith,
        running-set h s.pool.threads i at_lock (working j),
        awaits-append h s.pool.started j,
      )

  finish_at-Balanced :
      (h : Handle) (i : ℕ) (pc : Option (Pc (Job E R))) (s : System E R F)
      (p : ThreadPool (Job E R))
      → get_elem? s.pool.threads i ≡ pc
      → finish_at pc i s.pool ≡ some p
      → Balanced h s
      → Balanced h (record (run_at pc s) { pool = p })
  finish_at-Balanced h i (some (working j)) s p e f b = ground (
    arith,
    running-set h s.pool.threads i (working j) at_lock,
    posted-append h s.ended j
        (await_resume (run_job s.flags (some j.h) (new_awaitable j.ct j.fn) s.sched).0),
  )
  finish_at-Balanced h i (some at_lock) s p e f b = cc
  finish_at-Balanced h i (some exited) s p e f b = cc
  finish_at-Balanced h i none s p e f b = cc

  served-Balanced :
      (h : Handle) (i : Item F × Scheduler F) (s t : System E R F)
      → served i s ≡ some t
      → Balanced h s
      → Balanced h t
  served-Balanced h (handle g, q) s t p b = ground arith
  served-Balanced h (callable f, q) s t p b = ground arith
  served-Balanced h (leave, q) s t p b = cc
  served-Balanced h (nothing, q) s t p b = cc

  pub step-Balanced :
      (h : Handle) (x : Happening E R F) (s t : System E R F)
      → step x s ≡ some t
      → Balanced h s
      → Balanced h t
  unfolding step Pool.step Pool.submit Pool.enqueue Pool.stop Pool.begin_shutdown
  step-Balanced h (on_pool (submits none)) s t p b = ground arith
  step-Balanced h (on_pool (submits (some j))) s t p b = ground arith
  step-Balanced h (on_pool (takes i)) s t p b = elim (Option-cases (Pool.step (takes i) s.pool)) [
    | inl q ↦ cc (rw (q, step) at p)
    | inr (u, q) ↦
        let (at, same, _) = step-takes i s.pool u q in
        ground (arith, at, same, take_from-Balanced h i s.pool.q s at b)
  ]
  step-Balanced h (on_pool (finishes i)) s t p b =
      elim (Option-cases (finish_at (get_elem? s.pool.threads i) i s.pool)) [
        | inl q ↦ cc (rw (q, step) at p)
        | inr (u, q) ↦
            ground (arith, finish_at-Balanced h i (get_elem? s.pool.threads i) s u refl q b)
      ]
  step-Balanced h (on_pool _) s t p b = ground arith
  step-Balanced h (cancels c) s t p b = ground arith
  step-Balanced h serves s t p b = served-Balanced h (take s.sched) s t p b
  step-Balanced h (posts_handle g) s t p b = ground arith
  step-Balanced h (posts f) s t p b = ground arith

  pub steps-Balanced :
      (h : Handle) (xs : List (Happening E R F)) (s t : System E R F)
      → steps xs s ≡ some t
      → Balanced h s
      → Balanced h t
  unfolding steps
  steps-Balanced h [] s t p b = ground (arith, b)
  steps-Balanced h (x ∷ xs) s t p b = elim (Option-cases (step x s)) [
    | inl q ↦ cc (rw (q, steps) at p)
    | inr (u, q) ↦ steps-Balanced h xs u t (rw (q, steps) at p) (step-Balanced h x s u q b)
  ]
