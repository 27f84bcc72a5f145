-- ===== src/Scheduler/Interleaving/Fifo.antt =====
-- Order and conservation of the work, under every interleaving of `run` with other threads.
use async.Prelude.{
  ◌≡◌, refl, sym, ap, ◌↔◌, ◌⊎◌, inl, inr, true, false, Option, none, some, List, [], ◌∷◌, ◌++◌,
  append-nil, append_assoc, arith, Option-cases,
}
use async.Scheduler.{
  Handle, Item, handle, callable, leave, nothing, post, post_handle, stop, reset, awake, take,
}
use async.Scheduler.Interleaving.{
  outside, at_lock, doing, System, Event, posts, posts_handle, takes, start, taken, step, steps,
}

module _ {F : Type 0} where
  abbrev pub resumed : List (Item F) → List Handle
  resumed [] = []
  resumed (handle h ∷ xs) = h ∷ resumed xs
  resumed (callable f ∷ xs) = resumed xs
  resumed (leave ∷ xs) = resumed xs
  resumed (nothing ∷ xs) = resumed xs

  abbrev pub called : List (Item F) → List (Option F)
  called [] = []
  called (handle h ∷ xs) = called xs
  called (callable f ∷ xs) = f ∷ called xs
  called (leave ∷ xs) = called xs
  called (nothing ∷ xs) = called xs

  abbrev pub posted_handles : List (Event F) → List Handle
  posted_handles [] = []
  posted_handles (posts_handle (some h) ∷ es) = h ∷ posted_handles es
  posted_handles (posts_handle none ∷ es) = posted_handles es
  posted_handles (e ∷ es) = posted_handles es

  abbrev pub posted_fns : List (Event F) → List (Option F)
  posted_fns [] = []
  posted_fns (posts f ∷ es) = f ∷ posted_fns es
  posted_fns (e ∷ es) = posted_fns es

  resumed-append :
      (xs : List (Item F)) (x : Item F) → resumed (xs ++ x ∷ []) ≡ resumed xs ++ resumed (x ∷ [])
  resumed-append [] x = refl
  resumed-append (handle h ∷ xs) x = ap (◌∷◌ h) (resumed-append xs x)
  resumed-append (callable f ∷ xs) x = resumed-append xs x
  resumed-append (leave ∷ xs) x = resumed-append xs x
  resumed-append (nothing ∷ xs) x = resumed-append xs x

  called-append :
      (xs : List (Item F)) (x : Item F) → called (xs ++ x ∷ []) ≡ called xs ++ called (x ∷ [])
  called-append [] x = refl
  called-append (handle h ∷ xs) x = called-append xs x
  called-append (callable f ∷ xs) x = ap (◌∷◌ f) (called-append xs x)
  called-append (leave ∷ xs) x = called-append xs x
  called-append (nothing ∷ xs) x = called-append xs x

  -- All handles, and all callables, in the order in which they came.
  abbrev handles_seen : System F → List Handle
  handles_seen s = resumed s.done ++ s.sched.handle_q

  abbrev fns_seen : System F → List (Option F)
  fns_seen s = called s.done ++ s.sched.fn_q

  -- The state after an event extends the one before by `hs` and `fs`.
  abbrev Extends : System F → List Handle → List (Option F) → System F → Type 0
  Extends s hs fs t = (handles_seen t ≡ handles_seen s ++ hs) × (fns_seen t ≡ fns_seen s ++ fs)

  taken-Extends :
      (s : System F) (hq : List Handle) (fq : List (Option F))
      → s.sched.handle_q ≡ hq
      → s.sched.fn_q ≡ fq
      → Extends s [] [] (taken (take s.sched).0 (take s.sched).1 s.done)
  unfolding take
  taken-Extends s (h ∷ hs) fq e e' = ground (
    arith,
    resumed-append s.done (handle h),
    called-append s.done (handle h),
    append_assoc (resumed s.done) (h ∷ []) hs,
    append-nil (handles_seen s),
    append-nil (fns_seen s),
    append-nil (called s.done),
  )
  taken-Extends s [] (f ∷ fs) e e' = ground (
    arith,
    resumed-append s.done (callable f),
    called-append s.done (callable f),
    append_assoc (called s.done) (f ∷ []) fs,
    append-nil (handles_seen s),
    append-nil (fns_seen s),
    append-nil (resumed s.done),
  )
  taken-Extends s [] [] e e' = ground (arith, append-nil (handles_seen s), append-nil (fns_seen s))

  step-Extends :
      (e : Event F) (s t : System F)
      → step e s ≡ some t
      → Extends s (posted_handles (e ∷ [])) (posted_fns (e ∷ [])) t
  unfolding step post post_handle stop reset
  step-Extends (posts f) s t p =
      ground
        (arith, append_assoc (called s.done) s.sched.fn_q (f ∷ []), append-nil (handles_seen s))
  step-Extends (posts_handle none) s t p =
      ground (arith, append-nil (fns_seen s), append-nil (handles_seen s))
  step-Extends (posts_handle (some h)) s t p =
      ground
        (arith, append_assoc (resumed s.done) s.sched.handle_q (h ∷ []), append-nil (fns_seen s))
  step-Extends takes s t p = ground (arith, taken-Extends s s.sched.handle_q s.sched.fn_q)
  step-Extends _ s t p = ground (arith, append-nil (fns_seen s), append-nil (handles_seen s))

  posted_handles-cons :
      (e : Event F) (es : List (Event F))
      → posted_handles (e ∷ es) ≡ posted_handles (e ∷ []) ++ posted_handles es
  posted_handles-cons (posts_handle none) es = refl
  posted_handles-cons (posts_handle (some h)) es = refl
  posted_handles-cons _ es = refl

  posted_fns-cons :
      (e : Event F) (es : List (Event F))
      → posted_fns (e ∷ es) ≡ posted_fns (e ∷ []) ++ posted_fns es
  posted_fns-cons (posts f) es = refl
  posted_fns-cons _ es = refl

  steps-Extends :
      (es : List (Event F)) (s t : System F)
      → steps es s ≡ some t
      → Extends s (posted_handles es) (posted_fns es) t
  unfolding steps
  steps-Extends [] s t p = ground (arith, append-nil (handles_seen s), append-nil (fns_seen s))
  steps-Extends (e ∷ es) s t p = elim (Option-cases (step e s)) [
    | inl q ↦ cc (rw (q, steps) at p)
    | inr (u, q) ↦ ground (
      arith,
      step-Extends e s u q,
      steps-Extends es u t,
      posted_handles-cons e es,
      posted_fns-cons e es,
      append_assoc (handles_seen s) (posted_handles (e ∷ [])) (posted_handles es),
      append_assoc (fns_seen s) (posted_fns (e ∷ [])) (posted_fns es),
    )
  ]

  -- Under every interleaving of `run` with posts, stops and resets from any thread, from a new
  -- scheduler on: the non-null handles posted are, in order, those that `run` took followed by those
  -- still queued, and so are the callables posted. None is lost, doubled or overtaken in its queue.
  pub run_fifo :
      (es : List (Event F)) (t : System F)
      → steps es start ≡ some t
      → (posted_handles es ≡ resumed t.done ++ t.sched.handle_q)
        × (posted_fns es ≡ called t.done ++ t.sched.fn_q)
  run_fifo es t p = let (h, f) = steps-Extends es start t p in (sym h, sym f)

  -- What the mutex section of `run` did to `s`, with outcome `t`.
  abbrev pub Taken : System F → System F → Type 0
  Taken s t =
      ((h : Handle) × (s.sched.handle_q ≡ h ∷ t.sched.handle_q) × (t.pc ≡ doing (handle h)))
      ⊎ ((f : Option F) × (s.sched.handle_q ≡ [])
          × (s.sched.fn_q ≡ f ∷ t.sched.fn_q)
          × (t.pc ≡ doing (callable f)))
      ⊎ ((s.sched.handle_q ≡ [])
          × (s.sched.fn_q ≡ [])
          × (s.sched.stop_requested ≡ true)
          × (t.pc ≡ outside)
          × (t.sched.running ≡ false))

  step-Taken :
      (s t : System F) (hq : List Handle) (fq : List (Option F))
      → s.sched.handle_q ≡ hq
      → s.sched.fn_q ≡ fq
      → s.pc ≡ at_lock
      → step takes s ≡ some t
      → Taken s t
  unfolding step awake take
  step-Taken s t (h ∷ hs) fq e e' at p = inl (h, ground arith, ground arith)
  step-Taken s t [] (f ∷ fs) e e' at p = inr (inl (f, ground arith, ground arith, ground arith))
  step-Taken s t [] [] e e' at p =
      inr (inr (ground arith, ground arith, ground arith, ground arith, ground arith))

  -- The mutex section of `run`, when it is passed, takes the oldest handle; only when no handle is
  -- queued the oldest callable; and it ends the loop, which then no longer counts as running, only
  -- when both queues are empty and a stop was requested.
  pub take_priority : (s t : System F) → s.pc ≡ at_lock → step takes s ≡ some t → Taken s t
  take_priority s t at p = step-Taken s t s.sched.handle_q s.sched.fn_q refl refl at p

  idle_iff :
      (s : System F) (hq : List Handle) (fq : List (Option F))
      → s.sched.handle_q ≡ hq
      → s.sched.fn_q ≡ fq
      → s.pc ≡ at_lock
      → (step takes s ≡ none)
        ↔ ((s.sched.stop_requested ≡ false) × (s.sched.handle_q ≡ []) × (s.sched.fn_q ≡ []))
  unfolding step awake take
  idle_iff s (h ∷ hs) fq e e' at = (λ p. ground arith, λ p. ground arith)
  idle_iff s [] (f ∷ fs) e e' at = (λ p. ground arith, λ p. ground arith)
  idle_iff s [] [] e e' at = (λ p. ground arith, λ p. ground arith)

  -- `run` waits at its mutex section exactly while there is no stop request and both queues are
  -- empty: a post of either kind, and a stop, wake it.
  pub run_waits_iff :
      (s : System F)
      → s.pc ≡ at_lock
      → (step takes s ≡ none)
        ↔ ((s.sched.stop_requested ≡ false) × (s.sched.handle_q ≡ []) × (s.sched.fn_q ≡ []))
  run_waits_iff s at = idle_iff s s.sched.handle_q s.sched.fn_q refl refl at
