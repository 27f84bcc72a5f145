-- ===== src/Timer/Loop/Posted.antt =====
-- The jobs that the timer has posted to the scheduler.
use async.Prelude.{
  ℕ, ◌≡◌, refl, ap, inl, inr, Option, some, List, [], ◌∷◌, ◌++◌, arith, Option-cases, Bool-cases,
}
use async.Cancel.{States, is_cancelled}
use async.Scheduler.{post}
use async.Timer.{Entry}
use async.Timer.Loop.{
  Pc, checking, due, System, Event, checks, fires, start, check_from, check_at, fire_at, step,
  steps,
}

module _ {J : Type 0} where
  -- The callables of fired entries, oldest first.
  abbrev pub jobs : List (Entry J × ℕ) → List (Option J)
  jobs [] = []
  jobs ((e, at) ∷ xs) = some e.job ∷ jobs xs

  jobs-append :
      (xs : List (Entry J × ℕ)) (e : Entry J) (at : ℕ)
      → jobs (xs ++ (e, at) ∷ []) ≡ jobs xs ++ some e.job ∷ []
  jobs-append [] e at = refl
  jobs-append ((x, a) ∷ xs) e at = ap (λ ys. some x.job ∷ ys) (jobs-append xs e at)

  abbrev InStep : System J → Type 0
  InStep s = s.sched.fn_q ≡ jobs s.fired

  check_from-InStep :
      (next : Entry J) (q : List (Entry J)) (s : System J) → InStep s → InStep (check_from next q s)
  check_from-InStep next [] s h = h
  check_from-InStep next (x ∷ rest) s h = ground (arith, h)

  check_at-InStep : (pc : Pc J) (s t : System J) → check_at pc s ≡ some t → InStep s → InStep t
  check_at-InStep (checking next) s t p h = ground (arith, h, check_from-InStep next s.timer.q s h)
  check_at-InStep _ s t p h = cc

  fire_at-InStep : (pc : Pc J) (s t : System J) → fire_at pc s ≡ some t → InStep s → InStep t
  unfolding post
  fire_at-InStep (due next) s t p h = elim (Bool-cases (is_cancelled s.flags next.ct)) [
    | inl yes' ↦ ground (arith, h)
    | inr no' ↦ ground (arith, jobs-append s.fired next s.now, h)
  ]
  fire_at-InStep _ s t p h = cc

  step-InStep : (e : Event J) (s t : System J) → step e s ≡ some t → InStep s → InStep t
  unfolding step
  step-InStep checks s t p h = check_at-InStep s.pc s t p h
  step-InStep fires s t p h = fire_at-InStep s.pc s t p h
  step-InStep _ s t p h = ground (arith, h)

  steps-InStep : (es : List (Event J)) (s t : System J) → steps es s ≡ some t → InStep s → InStep t
  unfolding steps
  steps-InStep [] s t p h = ground (arith, h)
  steps-InStep (e ∷ es) s t p h = elim (Option-cases (step e s)) [
    | inl q ↦ cc (rw (q, steps) at p)
    | inr (u, q) ↦ steps-InStep es u t (rw (q, steps) at p) (step-InStep e s u q h)
  ]

  -- From a new timer and an empty scheduler on, as long as nobody else posts to the scheduler, its
  -- queue of callables holds the jobs of the fired entries, in their order.
  pub fn_q-jobs :
      (now : ℕ) (flags : States) (es : List (Event J)) (t : System J)
      → steps es (start now flags) ≡ some t
      → t.sched.fn_q ≡ jobs t.fired
  fn_q-jobs now flags es t p = steps-InStep es (start now flags) t p refl
