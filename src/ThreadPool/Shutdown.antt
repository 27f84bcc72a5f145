-- ===== src/ThreadPool/Shutdown.antt =====
-- The end of the workers: when they leave their loop, and what a shutdown waits for.
use async.Prelude.{
  ℕ, zero, suc, ◌<◌, ◌≡◌, refl, ap, ◌≢◌, ◌⊎◌, inl, inr, Bool, true, false, ◌&&◌, ◌||◌, none, some,
  List, [], ◌∷◌, append-nil, arith, ◌==◌, if◌then◌else◌, Option-cases, length, set, replicate,
  length-set,
}
use async.ThreadPool.{
  Pc, at_lock, working, exited, ThreadPool, Event, submits, stops, shuts_down, joins, takes,
  finishes, new_pool, enqueue, submit, stop, begin_shutdown, is_exited, joinable_all, take_from,
  step, steps,
}
use async.ThreadPool.Fifo.{accepted, step-takes, workers_fifo}

-- The number of workers that the constructor starts.
abbrev started_workers : ℕ → ℕ
started_workers n = if n == 0 then 1 else n

module _ {F : Type 0} where
  abbrev has_exited : List (Pc F) → Bool
  has_exited [] = false
  has_exited (p ∷ ps) = is_exited p || has_exited ps

  has_exited-set :
      (ps : List (Pc F)) (i : ℕ) (p : Pc F)
      → has_exited (set ps i p) ≡ true
      → (has_exited ps || is_exited p) ≡ true
  has_exited-set [] i p h = cc
  has_exited-set (x ∷ ps) zero p h = ground arith
  has_exited-set (x ∷ ps) (suc i) p h = ground (arith, has_exited-set ps i p)

  -- A worker has left only after a stop, with nothing queued.
  record Inv (n : ℕ) (s : ThreadPool F) : Type 0 where
    left : has_exited s.threads ≡ true → (s.stop ≡ true) × (s.q ≡ [])
    size : length s.threads ≡ n

  take_from-Inv :
      (n i : ℕ) (s : ThreadPool F) (q : List F)
      → s.q ≡ q
      → Inv n s
      → (s.stop ≡ true) ⊎ (s.q ≢ [])
      → Inv n (take_from q i s)
  take_from-Inv n i s [] e v w = record {
    left = ground (arith, v.left, has_exited-set s.threads i exited);
    size = ground (arith, v.size, length-set s.threads i exited);
  }
  take_from-Inv n i s (f ∷ fs) e v w = record {
    left = ground (arith, v.left, has_exited-set s.threads i (working f));
    size = ground (arith, v.size, length-set s.threads i (working f));
  }

  step-Inv : (n : ℕ) (e : Event F) (s t : ThreadPool F) → step e s ≡ some t → Inv n s → Inv n t
  unfolding step submit enqueue stop begin_shutdown
  step-Inv n (submits none) s t p v = ground (arith, v.left)
  step-Inv n (submits (some f)) s t p v = record {
    left = ground (arith, v.left);
    size = ground arith;
  }
  step-Inv n stops s t p v = record { left = ground (arith, v.left); size = ground arith }
  step-Inv n shuts_down s t p v = record { left = ground (arith, v.left); size = ground arith }
  step-Inv n (joins self) s t p v = record { left = ground (arith, v.left); size = ground arith }
  step-Inv n (takes i) s t p v =
      let (_, e, w) = step-takes i s t p in rw e (take_from-Inv n i s s.q refl v w)
  step-Inv n (finishes i) s t p v = record {
    left = ground (arith, v.left, has_exited-set s.threads i at_lock);
    size = ground (arith, v.size, length-set s.threads i at_lock);
  }

  steps-Inv :
      (n : ℕ) (es : List (Event F)) (s t : ThreadPool F) → steps es s ≡ some t → Inv n s → Inv n t
  unfolding steps
  steps-Inv n [] s t p v = ground (arith, v.left)
  steps-Inv n (e ∷ es) s t p v = elim (Option-cases (step e s)) [
    | inl q ↦ cc (rw (q, steps) at p)
    | inr (u, q) ↦ steps-Inv n es u t (rw (q, steps) at p) (step-Inv n e s u q v)
  ]

  has_exited-replicate :
      (n : ℕ) (p : Pc F) → is_exited p ≡ false → has_exited (replicate n p) ≡ false
  has_exited-replicate zero p h = refl
  has_exited-replicate (suc n) p h = ground (arith, has_exited-replicate n p h)

  length-replicate : (n : ℕ) (p : Pc F) → length (replicate n p) ≡ n
  length-replicate zero p = refl
  length-replicate (suc n) p = ap suc (length-replicate n p)

  new_pool-Inv : (n : ℕ) → Inv (started_workers n) (new_pool n)
  unfolding new_pool
  new_pool-Inv n = record {
    left = λ h. cc (h, has_exited-replicate (started_workers n) at_lock refl);
    size = length-replicate (started_workers n) at_lock;
  }

  abbrev pub all_exited : List (Pc F) → Bool
  all_exited [] = true
  all_exited (p ∷ ps) = is_exited p && all_exited ps

  pub joinable_all-none : (i : ℕ) (ps : List (Pc F)) → joinable_all none i ps ≡ all_exited ps
  unfolding joinable_all
  joinable_all-none i [] = refl
  joinable_all-none i (p ∷ ps) = ground (arith, joinable_all-none (suc i) ps)

  has_exited-all : (ps : List (Pc F)) → 0 < length ps → all_exited ps ≡ true → has_exited ps ≡ true
  has_exited-all [] lt h = elim lt [ ]
  has_exited-all (p ∷ ps) lt h = ground arith

  -- When a shutdown by a thread that is no worker gets through its joins, under any interleaving
  -- before it: every thread has left its loop, no callable is queued, those that were taken are
  -- exactly those accepted before the first stop, in order, and the pool owns no worker any more.
  pub shutdown_complete :
      (n : ℕ) (es : List (Event F)) (s t : ThreadPool F)
      → steps es (new_pool n) ≡ some s
      → step (joins none) s ≡ some t
      → (all_exited t.threads ≡ true) × (t.q ≡ []) × (t.started ≡ accepted es) × (t.workers ≡ 0)
  unfolding step
  shutdown_complete n es s t p j =
      let v = steps-Inv (started_workers n) es (new_pool n) s p (new_pool-Inv n) in
      let fifo = workers_fifo n es s p in
      let some_thread : 0 < length s.threads = ground (arith, v.size) in
      let exits = has_exited-all s.threads some_thread in
      (
        ground (arith, joinable_all-none 0 s.threads),
        ground (arith, joinable_all-none 0 s.threads, exits, v.left),
        ground (arith, joinable_all-none 0 s.threads, exits, v.left, append-nil s.started),
        ground arith,
      )
