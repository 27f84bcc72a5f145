-- ===== src/Scheduler/Drain.antt =====
-- `run` after a stop: how it ends.
use async.Prelude.{
  ℕ, zero, suc, ◌+◌, ◌<◌, ◌≤◌, ◌≡◌, refl, ◌⊎◌, inl, inr, Bool, Bool-cases, true, false, Option,
  none, some, List, [], ◌∷◌, ◌++◌, arith, ap, ◌∙◌,
}
use async.Scheduler.{
  Handle, Scheduler, Item, handle, callable, Outcome, returned, threw, awake, take, set_running,
  perform, noted, loop, run,
}

module _ {F : Type 0} where
  -- The work that the queues stand for, when an item `x` leads to `weight x` further passes.
  abbrev pub handles_weight : (Item F → ℕ) → List Handle → ℕ
  handles_weight w [] = 0
  handles_weight w (h ∷ hs) = suc (w (handle h) + handles_weight w hs)

  abbrev pub fns_weight : (Item F → ℕ) → List (Option F) → ℕ
  fns_weight w [] = 0
  fns_weight w (f ∷ fs) = suc (w (callable f) + fns_weight w fs)

  abbrev pub weight : (Item F → ℕ) → Scheduler F → ℕ
  weight w s = handles_weight w s.handle_q + fns_weight w s.fn_q

  -- The code that is run leaves the stop request and `running` in place, and posts work within the
  -- weight of its item, whether it ends with an exception or not.
  abbrev pub IsBounded : (Item F → ℕ) → (Item F → Scheduler F → Scheduler F × Bool) → Type 0
  IsBounded w body =
      (x : Item F) (s : Scheduler F)
      → ((body x s).0.stop_requested ≡ s.stop_requested)
        × ((body x s).0.running ≡ s.running)
        × (weight w (body x s).0 ≤ weight w s + w x)

  -- `run` has returned with both queues drained.
  abbrev pub Drained : Outcome F → Type 0
  Drained o =
      (t : Scheduler F) × (log : List (Item F)) × (o ≡ returned t log)
      × (t.handle_q ≡ [])
      × (t.fn_q ≡ [])
      × (t.running ≡ false)

  -- An exception of an item's code has left `run`, which still counts as running.
  abbrev pub Threw : (Item F → Scheduler F → Scheduler F × Bool) → Outcome F → Type 0
  Threw body o =
      (x : Item F) × (s : Scheduler F) × (log : List (Item F)) × (o ≡ threw (body x s).0 log)
      × ((body x s).1 ≡ true)
      × ((body x s).0.running ≡ true)

  perform-bounded :
      (w : Item F → ℕ) (body : Item F → Scheduler F → Scheduler F × Bool)
      → IsBounded w body
      → (f : Option F) (s : Scheduler F)
      → ((perform body (callable f) s).0.stop_requested ≡ s.stop_requested)
        × ((perform body (callable f) s).0.running ≡ s.running)
        × (weight w (perform body (callable f) s).0 ≤ weight w s + w (callable f))
  perform-bounded w body b (some f) s = b (callable (some f)) s
  perform-bounded w body b none s = (refl, refl, omega arith)

  -- Behind the code of an item: the exception, or the next pass.
  abbrev go_on :
      (Item F → Scheduler F → Scheduler F × Bool)
      → ℕ
      → Scheduler F × Bool
      → List (Item F)
      → Outcome F
  go_on body fuel r log = elim r.1 [ true ↦ threw r.0 log | false ↦ loop body fuel r.0 log ]

  -- One pass, by the shape of the queues.
  module _ (body : Item F → Scheduler F → Scheduler F × Bool) (fuel : ℕ) (s : Scheduler F)
      (log : List (Item F)) where
    loop_handle :
        (h : Handle) (hs : List Handle)
        → s.handle_q ≡ h ∷ hs
        → loop body (suc fuel) s log
          ≡ go_on body fuel (body (handle h) (record s { handle_q = hs })) (log ++ handle h ∷ [])
    unfolding loop awake take
    loop_handle h hs e = ground arith

    loop-callable :
        (f : Option F) (fs : List (Option F))
        → s.handle_q ≡ []
        → s.fn_q ≡ f ∷ fs
        → loop body (suc fuel) s log
          ≡ go_on body fuel
              (perform body (callable f) (record s { fn_q = fs }))
              (log ++ noted (callable f))
    unfolding loop awake take
    loop-callable f fs e e' = ground arith

    loop_leave :
        s.handle_q ≡ []
        → s.fn_q ≡ []
        → s.stop_requested ≡ true
        → loop body (suc fuel) s log ≡ returned (set_running false s) log
    unfolding loop awake take
    loop_leave e e' stopped = ground arith

  abbrev Ends : (Item F → Scheduler F → Scheduler F × Bool) → Outcome F → Type 0
  Ends body o = Drained o ⊎ Threw body o

  -- The code of an item has thrown, or the rest of the loop ends.
  go_on-Ends :
      (body : Item F → Scheduler F → Scheduler F × Bool) (fuel : ℕ) (x : Item F) (s : Scheduler F)
      (log : List (Item F))
      → (body x s).0.running ≡ true
      → Ends body (loop body fuel (body x s).0 log)
      → Ends body (go_on body fuel (body x s) log)
  go_on-Ends body fuel x s log on rest = elim (Bool-cases (body x s).1) [
    | inl bad ↦ inr (x, s, log, rw bad refl, bad, on)
    | inr good ↦ rw good rest
  ]

  loop-Ends :
      (w : Item F → ℕ) (body : Item F → Scheduler F → Scheduler F × Bool)
      → IsBounded w body
      → (fuel : ℕ) (s : Scheduler F) (log : List (Item F)) (hs : List Handle) (fs : List (Option F))
      → s.handle_q ≡ hs
      → s.fn_q ≡ fs
      → s.stop_requested ≡ true
      → s.running ≡ true
      → weight w s < fuel
      → Ends body (loop body fuel s log)
  loop-Ends w body b zero s log hs fs e e' stopped on lt = elim lt [ ]
  loop-Ends w body b (suc fuel) s log (h ∷ hs) fs e e' stopped on lt =
      let s' : Scheduler F = record s { handle_q = hs } in
      let next : Scheduler F = (body (handle h) s').0 in
      let (stays, runs, less) = b (handle h) s' in
      rw (loop_handle body fuel s log h hs e) (
        go_on-Ends body fuel (handle h) s' (log ++ handle h ∷ []) (runs ∙ on) (
          loop-Ends w body b fuel next (log ++ handle h ∷ []) next.handle_q next.fn_q refl refl
            (stays ∙ stopped) (runs ∙ on) (omega (arith, less, ap (handles_weight w) e))))
  loop-Ends w body b (suc fuel) s log [] (some f ∷ fs) e e' stopped on lt =
      let s' : Scheduler F = record s { fn_q = fs } in
      let next : Scheduler F = (body (callable (some f)) s').0 in
      let (stays, runs, less) = b (callable (some f)) s' in
      rw (loop-callable body fuel s log (some f) fs e e') (
        go_on-Ends body fuel (callable (some f)) s' (log ++ callable (some f) ∷ []) (runs ∙ on) (
          loop-Ends w body b fuel next (log ++ callable (some f) ∷ []) next.handle_q next.fn_q refl
            refl (stays ∙ stopped) (runs ∙ on) (omega (arith, less, ap (fns_weight w) e'))))
  loop-Ends w body b (suc fuel) s log [] (none ∷ fs) e e' stopped on lt =
      let next : Scheduler F = record s { fn_q = fs } in
      rw (loop-callable body fuel s log none fs e e') (
        loop-Ends w body b fuel next (log ++ []) next.handle_q fs refl refl stopped on
          (omega (arith, ap (fns_weight w) e')))
  loop-Ends w body b (suc fuel) s log [] [] e e' stopped on lt =
      inl (set_running false s, log, loop_leave body fuel s log e e' stopped, e, e', refl)

  -- After a stop request, with no other thread on the scheduler, if each item's work is bounded by a
  -- weight, the code that is run resets neither the stop request nor `running`, and the fuel exceeds
  -- the weight of the queues: `run` ends, and either it returns with both queues empty and `running`
  -- false, whatever the queues held and whatever that code posts, or the code of an item has thrown,
  -- and that exception leaves `run` with `running` true.
  pub run-Drained :
      (w : Item F → ℕ) (body : Item F → Scheduler F → Scheduler F × Bool)
      → IsBounded w body
      → (fuel : ℕ) (s : Scheduler F) → s.stop_requested ≡ true
      → weight w s < fuel
      → Drained (run body fuel s) ⊎ Threw body (run body fuel s)
  unfolding run
  run-Drained w body b fuel s stopped lt =
      loop-Ends w body b fuel (set_running true s) [] s.handle_q s.fn_q refl refl stopped refl lt
