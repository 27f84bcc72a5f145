-- ===== src/ThreadPool/Bounds.antt =====
-- Where the callables of a pool are, and how many run at once.
use async.Prelude.{
  ℕ, zero, suc, ◌+◌, ◌≤◌, ◌≡◌, refl, ap, ◌∙◌, inl, inr, Bool, Option, none, some, List, [], ◌∷◌,
  ◌++◌, arith, ◌==◌, if◌then◌else◌, Option-cases, length, get_elem?, set, replicate, length-set,
}
use async.ThreadPool.{
  Pc, at_lock, working, exited, ThreadPool, Event, submits, stops, shuts_down, joins, takes,
  finishes, new_pool, enqueue, submit, stop, begin_shutdown, take_from, finish_at, step, steps,
}
use async.ThreadPool.Fifo.{accepted, step-takes, workers_fifo}

module _ {F : Type 0} where
  -- How many of the callables have the property.
  abbrev pub tally : (F → Bool) → List F → ℕ
  tally has [] = 0
  tally has (f ∷ fs) = (if has f then 1 else 0) + tally has fs

  -- The callable that a thread runs.
  abbrev pub run_by : Pc F → List F
  run_by (working f) = f ∷ []
  run_by _ = []

  abbrev pub running : List (Pc F) → List F
  running [] = []
  running (p ∷ ps) = run_by p ++ running ps

  abbrev run_at : Option (Pc F) → List F
  run_at none = []
  run_at (some p) = run_by p

  -- The callable that ends by an event.
  abbrev pub ended_by : Event F → ThreadPool F → List F
  ended_by (finishes i) s = run_at (get_elem? s.threads i)
  ended_by _ s = []

  -- The callables that end by the events, in order.
  abbrev pub ended : List (Event F) → ThreadPool F → List F
  ended [] s = []
  ended (e ∷ es) s = ended_by e s ++ elim (step e s) [ none ↦ [] | some t ↦ ended es t ]

  tally-append :
      (has : F → Bool) (fs gs : List F) → tally has (fs ++ gs) ≡ tally has fs + tally has gs
  tally-append has [] gs = omega arith
  tally-append has (f ∷ fs) gs = omega (arith, tally-append has fs gs)

  length-running : (ps : List (Pc F)) → length (running ps) ≤ length ps
  length-running [] = omega arith
  length-running (working f ∷ ps) = omega (arith, length-running ps)
  length-running (at_lock ∷ ps) = omega (arith, length-running ps)
  length-running (exited ∷ ps) = omega (arith, length-running ps)

  tally-cons :
      (has : F → Bool) (p : Pc F) (ps : List (Pc F))
      → tally has (running (p ∷ ps)) ≡ tally has (run_by p) + tally has (running ps)
  tally-cons has p ps = tally-append has (run_by p) (running ps)

  tally-set :
      (has : F → Bool) (ps : List (Pc F)) (i : ℕ) (p p' : Pc F)
      → get_elem? ps i ≡ some p
      → tally has (running (set ps i p')) + tally has (run_by p)
        ≡ tally has (running ps) + tally has (run_by p')
  tally-set has [] i p p' h = cc
  tally-set has (x ∷ ps) zero p p' h = ground (arith, tally-cons has x ps, tally-cons has p' ps)
  tally-set has (x ∷ ps) (suc i) p p' h =
      omega (arith, tally-set has ps i p p' h, tally-cons has x ps, tally-cons has x (set ps i p'))

  -- What runs at the end or has ended is what ran before or was taken since.
  abbrev Counts : (F → Bool) → List F → ThreadPool F → ThreadPool F → Type 0
  Counts has out s t =
      (length t.threads ≡ length s.threads)
      × (tally has (running t.threads) + tally has out + tally has s.started
          ≡ tally has (running s.threads) + tally has t.started)

  take_from-Counts :
      (has : F → Bool) (q : List F) (i : ℕ) (s : ThreadPool F)
      → get_elem? s.threads i ≡ some at_lock
      → Counts has [] s (take_from q i s)
  take_from-Counts has [] i s at =
      ground (arith, tally-set has s.threads i at_lock exited, length-set s.threads i exited)
  take_from-Counts has (f ∷ q) i s at = ground (
    arith,
    tally-set has s.threads i at_lock (working f),
    length-set s.threads i (working f),
    tally-append has s.started (f ∷ []),
  )

  finish_at-Counts :
      (has : F → Bool) (o : Option (Pc F)) (i : ℕ) (s t : ThreadPool F)
      → get_elem? s.threads i ≡ o
      → finish_at o i s ≡ some t
      → Counts has (run_at o) s t
  finish_at-Counts has (some (working f)) i s t at p =
      ground (arith, tally-set has s.threads i (working f) at_lock, length-set s.threads i at_lock)
  finish_at-Counts has none i s t at p = cc
  finish_at-Counts has (some _) i s t at p = cc

  step-Counts :
      (has : F → Bool) (e : Event F) (s t : ThreadPool F)
      → step e s ≡ some t
      → Counts has (ended_by e s) s t
  unfolding step submit enqueue stop begin_shutdown
  step-Counts has (takes i) s t p =
      let (at, e, _) = step-takes i s t p in rw e (take_from-Counts has s.q i s at)
  step-Counts has (finishes i) s t p = finish_at-Counts has (get_elem? s.threads i) i s t refl p
  step-Counts has (submits none) s t p = ground arith
  step-Counts has (submits (some f)) s t p = ground arith
  step-Counts has stops s t p = ground arith
  step-Counts has shuts_down s t p = ground arith
  step-Counts has (joins self) s t p = ground arith

  steps-Counts :
      (has : F → Bool) (es : List (Event F)) (s t : ThreadPool F)
      → steps es s ≡ some t
      → Counts has (ended es s) s t
  unfolding steps
  steps-Counts has [] s t p = ground arith
  steps-Counts has (e ∷ es) s t p = elim (Option-cases (step e s)) [
    | inl q ↦ cc (rw (q, steps) at p)
    | inr (u, q) ↦
        let (n, c) = step-Counts has e s u q in
        let (n', c') = steps-Counts has es u t (rw (q, steps) at p) in
        rw q (n' ∙ n, omega (arith, c, c', tally-append has (ended_by e s) (ended es u)))
  ]

  abbrev new_thread : Pc F
  new_thread = at_lock

  replicate-idle : (n : ℕ) (p : Pc F) → p ≡ at_lock → running (replicate n p) ≡ []
  replicate-idle zero p e = refl
  replicate-idle (suc n) p e = rw e (rw e at (replicate-idle n p e))

  length-replicate : (n : ℕ) (p : Pc F) → length (replicate n p) ≡ n
  length-replicate zero p = refl
  length-replicate (suc n) p = ap suc (length-replicate n p)

  -- In every state that a new pool of `n` threads can reach, with one thread for `n` of 0, at most
  -- as many callables run as there are threads, and no callable is lost or doubled: for every
  -- property of callables, as many of the accepted ones have it as of those that are queued, run, or
  -- have ended.
  pub pool_bounds :
      (has : F → Bool) (n : ℕ) (es : List (Event F)) (t : ThreadPool F)
      → steps es (new_pool n) ≡ some t
      → (length (running t.threads) ≤ (if n == 0 then 1 else n))
        × (tally has (accepted es)
            ≡ tally has t.q + tally has (running t.threads) + tally has (ended es (new_pool n)))
  unfolding new_pool
  pool_bounds has n es t p =
      let m = if n == 0 then 1 else n in
      let (size, kept) = steps-Counts has es (new_pool n) t p in
      let fifo = ap (tally has) (workers_fifo n es t p) in
      let idle = ap (tally has) (replicate-idle m new_thread refl) in
      (
        omega (arith, length-running t.threads, size, length-replicate m new_thread),
        omega (arith, fifo, tally-append has t.started t.q, kept, idle),
      )
