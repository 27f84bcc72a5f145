-- ===== src/ThreadPool/Fifo.antt =====
-- Which callables the workers take, under every interleaving.
use async.Prelude.{
  ℕ, ◌≡◌, refl, sym, ◌∙◌, ◌≢◌, ◌⊎◌, inl, inr, Bool, true, false, none, some, List, [], ◌∷◌, ◌++◌,
  append-nil, append_assoc, arith, Option-cases, get_elem?,
}
use async.ThreadPool.{
  at_lock, ThreadPool, Event, submits, stops, shuts_down, joins, takes, finishes, new_pool, enqueue,
  submit, stop, begin_shutdown, take_from, worker_take, step, steps,
}

module _ {F : Type 0} where
  -- The callables submitted before the first stop or shutdown, in order; after it none is accepted.
  abbrev pub accepted : List (Event F) → List F
  accepted [] = []
  accepted (submits none ∷ es) = accepted es
  accepted (submits (some f) ∷ es) = f ∷ accepted es
  accepted (stops ∷ es) = []
  accepted (shuts_down ∷ es) = []
  accepted (e ∷ es) = accepted es

  -- The same, in a pool that may be stopped already.
  abbrev pub accepted_by : Bool → List (Event F) → List F
  accepted_by true es = []
  accepted_by false es = accepted es

  abbrev seen : ThreadPool F → List F
  seen s = s.started ++ s.q

  take_from-seen :
      (i : ℕ) (s : ThreadPool F) (q : List F)
      → s.q ≡ q
      → (seen (take_from q i s) ≡ seen s)
        × ((take_from q i s).stop ≡ s.stop)
        × ((take_from q i s).shutdown_done ≡ s.shutdown_done)
  take_from-seen i s [] e = (ground arith, ground arith, ground arith)
  take_from-seen i s (f ∷ fs) e = (ground (arith, append_assoc s.started (f ∷ []) fs), refl, refl)

  pub step-takes :
      (i : ℕ) (s t : ThreadPool F)
      → step (takes i) s ≡ some t
      → (get_elem? s.threads i ≡ some at_lock)
        × (t ≡ take_from s.q i s)
        × ((s.stop ≡ true) ⊎ (s.q ≢ []))
  unfolding step worker_take
  step-takes i s t p = (ground arith, ground arith, ground arith)

  -- A shutdown has stopped the pool.
  abbrev pub IsOrdered : ThreadPool F → Type 0
  IsOrdered s = s.shutdown_done ≡ true → s.stop ≡ true

  step-seen :
      (e : Event F) (es : List (Event F)) (s t : ThreadPool F)
      → step e s ≡ some t
      → IsOrdered s
      → (seen t ++ accepted_by t.stop es ≡ seen s ++ accepted_by s.stop (e ∷ es)) × IsOrdered t
  unfolding step submit enqueue stop begin_shutdown
  step-seen (submits none) es s t p o = ground arith
  step-seen (submits (some f)) es s t p o = (
    ground
        (arith, append_assoc s.started s.q (f ∷ []), append_assoc (seen s) (f ∷ []) (accepted es)),
    ground arith,
  )
  step-seen stops es s t p o = (ground arith, ground arith)
  step-seen shuts_down es s t p o = (ground arith, ground arith)
  step-seen (joins self) es s t p o = (ground arith, ground arith)
  step-seen (takes i) es s t p o =
      let (_, e, _) = step-takes i s t p in
      let (same, same_stop, same_done) = take_from-seen i s s.q refl in (ground arith, ground arith)
  step-seen (finishes i) es s t p o = (ground arith, ground arith)

  steps-seen :
      (es : List (Event F)) (s t : ThreadPool F)
      → steps es s ≡ some t
      → IsOrdered s
      → (seen t ≡ seen s ++ accepted_by s.stop es) × IsOrdered t
  unfolding steps
  steps-seen [] s t p o = (ground (arith, append-nil (seen s)), ground arith)
  steps-seen (e ∷ es) s t p o = elim (Option-cases (step e s)) [
    | inl q ↦ cc (rw (q, steps) at p)
    | inr (u, q) ↦
        let (same, o') = step-seen e es s u q o in
        let (same', o'') = steps-seen es u t (rw (q, steps) at p) o' in (same' ∙ same, o'')
  ]

  -- Under every interleaving of the workers with submissions and stops, from a new pool on: the
  -- callables submitted before the first stop or shutdown are, in order, those that the workers took
  -- followed by those still queued. None of them is lost or doubled or overtaken, an empty callable
  -- is never queued, and none submitted later is ever run.
  pub workers_fifo :
      (n : ℕ) (es : List (Event F)) (t : ThreadPool F)
      → steps es (new_pool n) ≡ some t
      → accepted es ≡ t.started ++ t.q
  unfolding new_pool
  workers_fifo n es t p = sym (steps-seen es (new_pool n) t p (λ h. cc)).0
