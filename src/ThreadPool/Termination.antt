-- ===== src/ThreadPool/Termination.antt =====
-- That the workers of a stopped pool come to an end.
use async.Prelude.{
  ℕ, zero, suc, ◌+◌, ◌*◌, ◌≤◌, ◌≡◌, refl, ◌∙◌, ◌⊎◌, inl, inr, Bool, true, false, ◌&&◌, Option, none,
  some, List, [], ◌∷◌, arith, Option-cases, length, get_elem?, set,
}
use async.ThreadPool.{
  Pc, at_lock, working, exited, ThreadPool, Event, takes, finishes, joinable_all, take_from,
  worker_take, finish_at, step, steps,
}
use async.ThreadPool.Fifo.{step-takes}
use async.ThreadPool.Shutdown.{all_exited, joinable_all-none}

module _ {F : Type 0} where
  -- The steps that the workers can still make after a stop, when nothing is submitted any more.
  abbrev rank : Pc F → ℕ
  rank at_lock = 1
  rank (working f) = 2
  rank exited = 0

  abbrev ranks : List (Pc F) → ℕ
  ranks [] = 0
  ranks (p ∷ ps) = rank p + ranks ps

  abbrev pub remaining : ThreadPool F → ℕ
  remaining s = 2 * length s.q + ranks s.threads

  ranks-set :
      (ps : List (Pc F)) (i : ℕ) (p p' : Pc F)
      → get_elem? ps i ≡ some p
      → ranks (set ps i p') + rank p ≡ ranks ps + rank p'
  ranks-set [] i p p' h = cc
  ranks-set (x ∷ ps) zero p p' h = ground arith
  ranks-set (x ∷ ps) (suc i) p p' h = omega (arith, ranks-set ps i p p' h)

  abbrev pub by_worker : Event F → Bool
  by_worker (takes i) = true
  by_worker (finishes i) = true
  by_worker _ = false

  take_from-remaining :
      (i : ℕ) (s : ThreadPool F) (q : List F)
      → s.q ≡ q
      → s.stop ≡ true
      → get_elem? s.threads i ≡ some at_lock
      → (remaining (take_from q i s) + 1 ≡ remaining s) × ((take_from q i s).stop ≡ true)
  take_from-remaining i s [] e stopped at = ground (arith, ranks-set s.threads i at_lock exited)
  take_from-remaining i s (f ∷ fs) e stopped at =
      ground (arith, ranks-set s.threads i at_lock (working f))

  finish_at-remaining :
      (o : Option (Pc F)) (i : ℕ) (s t : ThreadPool F)
      → get_elem? s.threads i ≡ o
      → finish_at o i s ≡ some t
      → (remaining t + 1 ≡ remaining s) × (t.stop ≡ s.stop)
  finish_at-remaining none i s t at p = cc
  finish_at-remaining (some (working f)) i s t at p =
      (ground (arith, ranks-set s.threads i (working f) at_lock), ground arith)
  finish_at-remaining (some _) i s t at p = cc

  step-remaining :
      (e : Event F) (s t : ThreadPool F)
      → by_worker e ≡ true
      → step e s ≡ some t
      → s.stop ≡ true
      → (remaining t + 1 ≡ remaining s) × (t.stop ≡ true)
  unfolding step
  step-remaining (takes i) s t w p stopped =
      let (at, e, _) = step-takes i s t p in rw e (take_from-remaining i s s.q refl stopped at)
  step-remaining (finishes i) s t w p stopped =
      let (m, e) = finish_at-remaining (get_elem? s.threads i) i s t refl p in (m, e ∙ stopped)
  step-remaining _ s t w p stopped = cc

  abbrev pub all_by_worker : List (Event F) → Bool
  all_by_worker [] = true
  all_by_worker (e ∷ es) = by_worker e && all_by_worker es

  steps-remaining :
      (es : List (Event F)) (s t : ThreadPool F)
      → s.stop ≡ true
      → all_by_worker es ≡ true
      → steps es s ≡ some t
      → (length es + remaining t ≡ remaining s) × (t.stop ≡ true)
  unfolding steps
  steps-remaining [] s t stopped w p = ground arith
  steps-remaining (e ∷ es) s t stopped w p = elim (Option-cases (step e s)) [
    | inl q ↦ cc (rw (q, steps) at p)
    | inr (u, q) ↦
        let (less, stopped') = step-remaining e s u (ground arith) q stopped in
        let (n, stopped'') = steps-remaining es u t stopped' (ground arith) (rw (q, steps) at p) in
        (omega (arith, less, n), stopped'')
  ]

  -- A worker that has not left, as an index.
  find_worker :
      (ps : List (Pc F))
      → (all_exited ps ≡ true)
        ⊎ ((i : ℕ) × ((get_elem? ps i ≡ some at_lock)
              ⊎ ((f : F) × (get_elem? ps i ≡ some (working f)))))
  find_worker [] = inl refl
  find_worker (at_lock ∷ ps) = inr (0, inl refl)
  find_worker (working f ∷ ps) = inr (0, inr (f, refl))
  find_worker (exited ∷ ps) = elim (find_worker ps) [ inl h ↦ inl h | inr (i, h) ↦ inr (suc i, h) ]

  -- In a stopped pool no worker is ever stuck: either all have left, so that a shutdown from outside
  -- gets through its joins, or one of them can make a step.
  workers_progress :
      (s : ThreadPool F)
      → s.stop ≡ true
      → (joinable_all none 0 s.threads ≡ true)
        ⊎ ((e : Event F) × (t : ThreadPool F) × (by_worker e ≡ true) × (step e s ≡ some t))
  unfolding step worker_take
  workers_progress s stopped = elim (find_worker s.threads) [
    | inl h ↦ inl (joinable_all-none 0 s.threads ∙ h)
    | inr (i, inl at) ↦ inr (takes i, take_from s.q i s, refl, ground arith)
    | inr (i, inr (f, at)) ↦
        inr (finishes i, record s { threads = set s.threads i at_lock }, refl, ground arith)
  ]

  -- Once the pool is stopped the workers come to an end: any sequence of their steps is at most as
  -- long as `remaining` says, two steps for a queued callable, one for a callable in progress, and
  -- one for leaving. After it, either all workers have left, so that a shutdown from outside gets
  -- through its joins, or one of them can make a step.
  pub workers_terminate :
      (es : List (Event F)) (s t : ThreadPool F)
      → s.stop ≡ true
      → all_by_worker es ≡ true
      → steps es s ≡ some t
      → (length es + remaining t ≡ remaining s)
        × ((joinable_all none 0 t.threads ≡ true)
            ⊎ ((e : Event F) × (u : ThreadPool F) × (by_worker e ≡ true) × (step e t ≡ some u)))
  workers_terminate es s t stopped w p =
      let (n, stopped') = steps-remaining es s t stopped w p in (n, workers_progress t stopped')

  -- The workers of a stopped pool can leave, so that a shutdown gets through its joins.
  abbrev pub Leaves : ThreadPool F → Type 0
  Leaves s =
      (es : List (Event F)) × (t : ThreadPool F) × (all_by_worker es ≡ true)
      × (steps es s ≡ some t)
      × (joinable_all none 0 t.threads ≡ true)
      × (t.shutdown_done ≡ s.shutdown_done)

  take_from-shutdown_done :
      (q : List F) (i : ℕ) (s : ThreadPool F) → (take_from q i s).shutdown_done ≡ s.shutdown_done
  take_from-shutdown_done [] i s = ground arith
  take_from-shutdown_done (f ∷ q) i s = refl

  step-shutdown_done :
      (e : Event F) (s t : ThreadPool F)
      → by_worker e ≡ true
      → step e s ≡ some t
      → t.shutdown_done ≡ s.shutdown_done
  unfolding step
  step-shutdown_done (takes i) s t w p =
      let (_, e, _) = step-takes i s t p in rw e (take_from-shutdown_done s.q i s)
  step-shutdown_done (finishes i) s t w p = ground arith
  step-shutdown_done _ s t w p = cc

  Leaves-step :
      (e : Event F) (s u : ThreadPool F)
      → by_worker e ≡ true
      → step e s ≡ some u
      → Leaves u
      → Leaves s
  unfolding steps
  Leaves-step e s u w q (es, t, all, run, done, same) = (
    e ∷ es,
    t,
    ground (arith, w, all),
    ground (arith, q, run),
    done,
    same ∙ step-shutdown_done e s u w q,
  )

  leaves : (fuel : ℕ) (s : ThreadPool F) → remaining s ≤ fuel → s.stop ≡ true → Leaves s
  unfolding steps
  leaves zero s le stopped = elim (workers_progress s stopped) [
    | inl h ↦ ([], s, refl, refl, h, refl)
    | inr (e, u, w, q) ↦ absurd (omega (arith, (step-remaining e s u w q stopped).0))
  ]
  leaves (suc fuel) s le stopped = elim (workers_progress s stopped) [
    | inl h ↦ ([], s, refl, refl, h, refl)
    | inr (e, u, w, q) ↦
        let (less, stopped') = step-remaining e s u w q stopped in
        Leaves-step e s u w q (leaves fuel u (omega (arith, less)) stopped')
  ]

  pub can_leave : (s : ThreadPool F) → s.stop ≡ true → Leaves s
  can_leave s stopped = leaves (remaining s) s (omega arith) stopped
