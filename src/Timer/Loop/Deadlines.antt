-- ===== src/Timer/Loop/Deadlines.antt =====
-- When the timer fires: never early, and late behind an entry that it waits for.
use async.Prelude.{
  ℕ, ◌≤◌, ◌<◌, ◌≡◌, refl, ◌⊎◌, inl, inr, true, false, none, some, List, [], ◌∷◌, ◌++◌, arith,
  Option-cases,
}
use async.Cancel.{States}
use async.Timer.{Entry, schedule, stop}
use async.Timer.Loop.{
  Pc, checking, sleeping, due, System, Event, schedules, ticks, takes, checks, fires, start,
  check_from, check_at, step, steps,
}

module _ {J : Type 0} where
  -- No entry was posted before its deadline.
  abbrev pub OnTime : List (Entry J × ℕ) → Type 0
  OnTime [] = Unit {0}
  OnTime ((e, at) ∷ xs) = (e.when ≤ at) × OnTime xs

  OnTime-append :
      (xs : List (Entry J × ℕ)) (e : Entry J) (at : ℕ)
      → OnTime xs
      → e.when ≤ at
      → OnTime (xs ++ (e, at) ∷ [])
  OnTime-append [] e at h k = (k, tt)
  OnTime-append ((x, a) ∷ xs) e at h k = (h.0, OnTime-append xs e at h.1 k)

  -- The entry behind the inner loop is due.
  abbrev DueNow : Pc J → ℕ → Type 0
  DueNow (due e) now = e.when ≤ now
  DueNow _ now = Unit {0}

  abbrev Timely : System J → Type 0
  Timely s = OnTime s.fired × DueNow s.pc s.now

  step-Timely : (e : Event J) (s t : System J) → step e s ≡ some t → Timely s → Timely t
  unfolding step
  step-Timely (schedules tp j ct) s t p h = ground arith
  step-Timely (ticks d) s t p h = ground arith
  step-Timely takes s t p h = ground arith
  step-Timely fires s t p h =
      elim s.pc as (λ c. s.pc ≡ c → Timely t) [
        | due x ↦ λ e. ground (arith, OnTime-append s.fired x s.now h.0)
        | _ ↦ λ e. ground arith
      ]
        refl
  step-Timely _ s t p h = ground arith

  steps-Timely : (es : List (Event J)) (s t : System J) → steps es s ≡ some t → Timely s → Timely t
  unfolding steps
  steps-Timely [] s t p h = ground (arith, h)
  steps-Timely (e ∷ es) s t p h = elim (Option-cases (step e s)) [
    | inl q ↦ cc (rw (q, steps) at p)
    | inr (u, q) ↦ steps-Timely es u t (rw (q, steps) at p) (step-Timely e s u q h)
  ]

  -- Under every interleaving, from a new timer on, no job is posted before the clock has reached its
  -- deadline.
  pub never_early :
      (now : ℕ) (flags : States) (es : List (Event J)) (t : System J)
      → steps es (start now flags) ≡ some t
      → OnTime t.fired
  never_early now flags es t p = (steps-Timely es (start now flags) t p (tt, tt)).0

  step-sleeping :
      (e : Event J) (s t : System J) (next : Entry J)
      → s.pc ≡ sleeping next
      → step e s ≡ some t
      → t.now < next.when
      → t.timer.stop ≡ false
      → (t.pc ≡ sleeping next)
        × (t.fired ≡ s.fired)
        × (t.sched ≡ s.sched)
        × (s.now ≤ t.now)
        × (s.timer.stop ≡ false)
  unfolding step schedule stop
  step-sleeping (schedules tp none ct) s t next at p early on = ground arith
  step-sleeping (schedules tp (some j) ct) s t next at p early on = ground arith
  step-sleeping _ s t next at p early on = ground arith

  -- The clock does not fall, and a stop is final.
  abbrev Later : System J → System J → Type 0
  Later s t = (s.now ≤ t.now) × ((s.timer.stop ≡ false) ⊎ (t.timer.stop ≡ true))

  check_from-Later :
      (next : Entry J) (q : List (Entry J)) (s : System J) → Later s (check_from next q s)
  check_from-Later next [] s = ground arith
  check_from-Later next (x ∷ rest) s = ground arith

  check_at-Later : (pc : Pc J) (s t : System J) → check_at pc s ≡ some t → Later s t
  check_at-Later (checking next) s t p = ground (arith, check_from-Later next s.timer.q s)
  check_at-Later _ s t p = cc

  step-Later : (e : Event J) (s t : System J) → step e s ≡ some t → Later s t
  unfolding step schedule stop
  step-Later (schedules tp none ct) s t p = ground arith
  step-Later (schedules tp (some j) ct) s t p = ground arith
  step-Later checks s t p = check_at-Later s.pc s t p
  step-Later _ s t p = ground arith

  steps-Later : (es : List (Event J)) (s t : System J) → steps es s ≡ some t → Later s t
  unfolding steps
  steps-Later [] s t p = ground arith
  steps-Later (e ∷ es) s t p = elim (Option-cases (step e s)) [
    | inl q ↦ cc (rw (q, steps) at p)
    | inr (u, q) ↦ ground (arith, step-Later e s u q, steps-Later es u t (rw (q, steps) at p))
  ]

  -- While the thread waits for the deadline of the entry `next` in an unstopped timer, nothing is
  -- posted before that deadline, whatever is scheduled, cancelled or comes due meanwhile: an entry
  -- with an earlier deadline that is scheduled during the wait is late.
  pub wait_ignores_earlier :
      (es : List (Event J)) (s t : System J) (next : Entry J)
      → s.pc ≡ sleeping next
      → steps es s ≡ some t
      → t.now < next.when
      → t.timer.stop ≡ false
      → (t.pc ≡ sleeping next) × (t.fired ≡ s.fired) × (t.sched ≡ s.sched)
  unfolding steps
  wait_ignores_earlier [] s t next at p early on = ground arith
  wait_ignores_earlier (e ∷ es) s t next at p early on = elim (Option-cases (step e s)) [
    | inl q ↦ cc (rw (q, steps) at p)
    | inr (u, q) ↦
        let (le, cases) = steps-Later es u t (rw (q, steps) at p) in
        let here = step-sleeping e s u next at q (omega arith) (ground arith) in
        ground (arith, wait_ignores_earlier es u t next here.0 (rw (q, steps) at p))
  ]
