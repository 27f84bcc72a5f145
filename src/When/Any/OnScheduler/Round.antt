-- ===== src/When/Any/OnScheduler/Round.antt =====
-- The first round of the runners of a `when_any`: each goes on once before the awaiting coroutine.
use async.Prelude.{
  ℕ, zero, suc, ◌+◌, ◌<◌, ◌≡◌, refl, sym, ap, ◌∙◌, inl, inr, true, Option, none, some, List, [],
  ◌∷◌, ◌++◌, append-nil, append_assoc, arith, Option-cases, length, get_elem?, get_elem?-some, set,
  get_elem?-set_other,
}
use async.Completion.{Completion, returns, throws, undefined}
use async.Scheduler.{Scheduler, Handle, handle, take}
use async.Scheduler.Schedule
use async.When.All.OnScheduler.{index_of}
use async.When.Any.{WhenAnyState, when_any_runner, run_any}
use async.When.Any.OnScheduler.{Run, go_on, popped, race, prompt}

later :
    (i j : ℕ) (w : Option ℕ) (waits : List (Option ℕ))
    → get_elem? (set waits i w) (suc i + j) ≡ get_elem? waits (i + suc j)
later i j w waits =
    get_elem?-set_other waits i (suc i + j) w (λ e. omega (arith, e))
    ∙ ap (get_elem? waits) (omega arith)

module _ {E V F : Type 0} where
  abbrev pub with_sched : Scheduler F → WhenAnyState E V F → WhenAnyState E V F
  with_sched p st = record st { sched = p }

  -- After the first end the runners leave the scheduler alone.
  runner-with_sched :
      (i : ℕ) (o : Completion E V) (p : Scheduler F) (st : WhenAnyState E V F)
      → st.done ≡ true
      → (when_any_runner i o (with_sched p st) ≡ with_sched p (when_any_runner i o st))
        × ((when_any_runner i o st).done ≡ true)
        × ((when_any_runner i o st).sched ≡ st.sched)
  unfolding when_any_runner
  runner-with_sched i (returns v) p st d = ground arith
  runner-with_sched i (throws x) p st d = ground arith
  runner-with_sched i undefined p st d = ground arith

  pub run_any-with_sched :
      (os : List (Completion E V)) (order : List ℕ) (p : Scheduler F) (st : WhenAnyState E V F)
      → st.done ≡ true
      → run_any os order (with_sched p st) ≡ with_sched p (run_any os order st)
  unfolding run_any
  run_any-with_sched os [] p st d = refl
  run_any-with_sched os (i ∷ order) p st d = elim (Option-cases (get_elem? os i)) [
    | inl e ↦ rw (e, run_any) (ground (arith, e, run_any-with_sched os order p st d))
    | inr (o, e) ↦
        let (w, d', _) = runner-with_sched i o p st d in
        ground (arith, e, w, run_any-with_sched os order p (when_any_runner i o st) d')
  ]

module _ {E V F : Type 0} (os : List (Completion E V)) (runners : List Handle) (c : Handle)
    (apart : index_of c runners ≡ none) where
  pub race-handle :
      (fuel : ℕ) (x : Run E V F) (h : Handle) (i : ℕ) (p : Scheduler F)
      → take x.st.sched ≡ (handle h, p)
      → index_of h runners ≡ some i
      → race os runners (suc fuel) x
        ≡ race os runners fuel
            (go_on os runners i h (get_elem? x.waits i) (get_elem? os i) (popped os runners x))
  unfolding race
  race-handle fuel x h i p e at = ground (arith, e, at)

  pub take-handle :
      (s : Scheduler F) (h : Handle) (hs : List Handle)
      → s.handle_q ≡ h ∷ hs
      → take s ≡ (handle h, record s { handle_q = hs })
  unfolding take
  take-handle s h hs q = ground (arith, q)

  race-awaiting :
      (fuel : ℕ) (x : Run E V F) (hs : List Handle)
      → x.st.sched.handle_q ≡ c ∷ hs
      → race os runners (suc fuel) x ≡ some (popped os runners x)
  unfolding race take
  race-awaiting fuel x hs q = ground (arith, q, apart)

  -- What holds when the tasks from `i` on, with the handles `rs` and the delays `ds`, have not gone
  -- on yet, and one before them has ended.
  pub record Ready (i : ℕ) (rs : List Handle) (ds : List ℕ) (back : List Handle) (x : Run E V F)
      : Type 0 where
    pub queue : x.st.sched.handle_q ≡ rs ++ c ∷ back
    pub won : x.st.done ≡ true
    pub places : (j : ℕ) (r : Handle) → get_elem? rs j ≡ some r → index_of r runners ≡ some (i + j)
    pub waiting : (j d : ℕ) → get_elem? ds j ≡ some d → get_elem? x.waits (i + j) ≡ some (some d)
    pub inside : (j : ℕ) → j < length rs → i + j < length os

  -- The state after the next task has gone on.
  abbrev pub after : ℕ → Handle → ℕ → Completion E V → Run E V F → Run E V F
  after i r d o x = go_on os runners i r (some (some d)) (some o) (popped os runners x)

  next-Ready :
      (i : ℕ) (r : Handle) (rs : List Handle) (d : ℕ) (ds : List ℕ) (back : List Handle)
      (x : Run E V F) (o : Completion E V)
      → Ready i (r ∷ rs) (d ∷ ds) back x
      → (back' : List Handle) × Ready (suc i) rs ds back' (after i r d o x)
  unfolding Schedule.await_suspend
  next-Ready i r rs zero ds back x o v = (
    back,
    record {
      queue = ground (
        arith,
        (runner-with_sched i o x.st.sched (popped os runners x).st v.won).2,
        take-handle x.st.sched r (rs ++ c ∷ back) v.queue,
      );
      won = (runner-with_sched i o x.st.sched (popped os runners x).st v.won).1;
      places = λ j r' e. v.places (suc j) r' e ∙ ap some (omega arith);
      waiting = λ j d e. later i j none x.waits ∙ v.waiting (suc j) d e;
      inside = λ j lt. omega (arith, v.inside (suc j) (omega arith));
    },
  )
  next-Ready i r rs (suc k) ds back x o v = (
    back ++ r ∷ [],
    record {
      queue = ground (
        arith,
        take-handle x.st.sched r (rs ++ c ∷ back) v.queue,
        append_assoc rs (c ∷ back) (r ∷ []),
      );
      won = v.won;
      places = λ j r' e. v.places (suc j) r' e ∙ ap some (omega arith);
      waiting = λ j d e. later i j (some k) x.waits ∙ v.waiting (suc j) d e;
      inside = λ j lt. omega (arith, v.inside (suc j) (omega arith));
    },
  )

  advance :
      (fuel i : ℕ) (r : Handle) (rs : List Handle) (d : ℕ) (ds : List ℕ) (back : List Handle)
      (x : Run E V F)
      → Ready i (r ∷ rs) (d ∷ ds) back x
      → (o : Completion E V) × (get_elem? os i ≡ some o)
        × (race os runners (suc fuel) x ≡ race os runners fuel (after i r d o x))
  advance fuel i r rs d ds back x v =
      let (o, e) = get_elem?-some os i (omega (arith, v.inside 0 (omega arith))) in
      let place : index_of r runners ≡ some i = v.places 0 r refl ∙ ap some (omega arith) in
      let wait : get_elem? x.waits i ≡ some (some d) =
        ap (get_elem? x.waits) (omega arith) ∙ v.waiting 0 d refl in
      (
        o,
        e,
        race-handle fuel x r i _ (take-handle x.st.sched r (rs ++ c ∷ back) v.queue) place
            ∙ ap (race os runners fuel) (ground (arith, wait, e)),
      )

  -- The coroutine goes on after the tasks of `ended`.
  abbrev pub Outcome : Run E V F → List ℕ → Run E V F → Type 0
  Outcome x ended y =
      (y.order ≡ x.order ++ ended) × (y.st ≡ with_sched y.st.sched (run_any os ended x.st))

  pub round :
      (fuel : ℕ) (rs : List Handle) (ds : List ℕ) (i : ℕ) (back : List Handle) (x : Run E V F)
      → length rs ≡ length ds
      → length rs < fuel
      → Ready i rs ds back x
      → (y : Run E V F) × (race os runners fuel x ≡ some y) × Outcome x (prompt i ds) y
  unfolding take run_any
  round zero rs ds i back x sized lt v = elim lt [ ]
  round (suc fuel) [] [] i back x sized lt v =
      (popped os runners x, race-awaiting fuel x back v.queue, (sym (append-nil x.order), refl))
  round (suc fuel) [] (d ∷ ds) i back x sized lt v = absurd (omega arith)
  round (suc fuel) (r ∷ rs) [] i back x sized lt v = absurd (omega arith)
  round (suc fuel) (r ∷ rs) (zero ∷ ds) i back x sized lt v =
      let (o, e, next) = advance fuel i r rs zero ds back x v in
      let (back', v') = next-Ready i r rs zero ds back x o v in
      let (y, run, (ord, st)) =
        round fuel rs ds (suc i) back' (after i r zero o x) (omega arith) (omega arith) v' in
      let p = (popped os runners x).st.sched in
      let (w, d, _) = runner-with_sched i o p x.st v.won in
      let ends : run_any os (i ∷ prompt (suc i) ds) x.st
          ≡ run_any os (prompt (suc i) ds) (when_any_runner i o x.st) =
        ground (arith, e) in
      (
        y,
        next ∙ run,
        (
          ord ∙ append_assoc x.order (i ∷ []) (prompt (suc i) ds),
          st
              ∙ ap (λ s. with_sched y.st.sched (run_any os (prompt (suc i) ds) s)) w
              ∙ ap (with_sched y.st.sched)
                  (run_any-with_sched os (prompt (suc i) ds) p (when_any_runner i o x.st) d)
              ∙ ap (with_sched y.st.sched) (sym ends),
        ),
      )
  round (suc fuel) (r ∷ rs) (suc k ∷ ds) i back x sized lt v =
      let (o, e, next) = advance fuel i r rs (suc k) ds back x v in
      let (back', v') = next-Ready i r rs (suc k) ds back x o v in
      let z = after i r (suc k) o x in
      let (y, run, (ord, st)) = round fuel rs ds (suc i) back' z (omega arith) (omega arith) v' in
      (
        y,
        next ∙ run,
        (
          ord,
          st
              ∙ ap (with_sched y.st.sched)
                  (run_any-with_sched os (prompt (suc i) ds) z.st.sched x.st v.won),
        ),
      )
