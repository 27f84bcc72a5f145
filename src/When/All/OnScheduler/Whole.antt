-- ===== src/When/All/OnScheduler/Whole.antt =====
-- `when_all` from the suspension of the awaiting coroutine to its resumption.
use async.Prelude.{
  ℕ, zero, suc, ◌+◌, ◌^◌, ◌<◌, ◌≡◌, refl, ap, ◌∙◌, inl, inr, Option, none, some, List, [], ◌∷◌,
  ◌++◌, arith, Option-cases, length, get_elem?, length-set, get_elem?-some, Each,
}
use async.Completion.{Completion, returns, throws}
use async.Scheduler.{Scheduler, Handle, handle, take, empty}
use async.When.All.{run_all, await_resume}
use async.When.All.Slots.{IsOrder, first_thrown, values, Ends}
use async.When.All.Outcome.{when_all_outcome}
use async.When.All.OnScheduler.{
  Run, index_of, go_on, resume, popped, loop, work, delayed, start, IsDistinct,
}
use async.When.All.OnScheduler.Runners.{with_sched}
use async.When.All.OnScheduler.Start.{start-live, index_of-get, length-delayed}
use async.When.All.OnScheduler.Passes.{
  handles, begun, Inv, Ended, take-handles, yields-Inv, ends-Inv, last-Ended, work-set_less,
  work-set_none,
}

module _ {E V F : Type 0} (os : List (Completion E V)) (runners : List Handle) where
  loop-handle :
      (fuel : ℕ) (x : Run E V F) (h : Handle) (p : Scheduler F)
      → take x.st.sched ≡ (handle h, p)
      → loop os runners (suc fuel) x
        ≡ loop os runners fuel (resume os runners (index_of h runners) h (popped os runners x))
  unfolding loop
  loop-handle fuel x h p e = ground (arith, e)

  loop-idle :
      (fuel : ℕ) (x : Run E V F)
      → x.st.sched.handle_q ≡ []
      → x.st.sched.fn_q ≡ []
      → loop os runners fuel x ≡ x
  unfolding loop
  loop-idle zero x e f = refl
  loop-idle (suc fuel) x e f = ground arith

module _ {E V F : Type 0} (os : List (Completion E V)) (runners : List Handle) (c : Handle) where
  -- The awaiting coroutine, and it alone, has been resumed, and all tasks have ended.
  record Final (x : Run E V F) : Type 0 where
    queue : x.st.sched.handle_q ≡ []
    resumed_once : x.resumed ≡ c ∷ []
    state : x.st ≡ with_sched x.st.sched (run_all os x.order (begun os runners c))
    ordered : IsOrder (length os) x.order

  Ended-Final :
      (fuel : ℕ) (x : Run E V F)
      → index_of c runners ≡ none
      → Ended os runners c x
      → Final (loop os runners (suc fuel) x)
  unfolding take
  Ended-Final fuel x apart v =
      let q : take x.st.sched ≡ (handle c, record x.st.sched { handle_q = [] }) =
        ground (arith, v.queue) in
      let y = resume os runners none c (popped os runners x) in
      let here : loop os runners (suc fuel) x ≡ y =
        loop-handle os runners fuel x c (record x.st.sched { handle_q = [] }) q
        ∙ ap (λ (o : Option ℕ). loop os runners fuel (resume os runners o c (popped os runners x)))
            apart
        ∙ loop-idle os runners fuel y (ground (arith, q)) (ground (arith, q, v.fns)) in
      rw here (record {
        queue = ground (arith, q);
        resumed_once = ground (arith, v.unresumed);
        state = ap (with_sched (take x.st.sched).1) v.state;
        ordered = record { long = v.long; below = v.below; covers = v.covers };
      })

module _ {E V F : Type 0} (os : List (Completion E V)) (runners : List Handle) (c : Handle)
    (sized : length runners ≡ length os) (small : length os < 2 ^ 64)
    (distinct : (i : ℕ) (r : Handle) → get_elem? runners i ≡ some r → index_of r runners ≡ some i)
    (apart : index_of c runners ≡ none) where
  -- The task at the head has not ended, and has an end.
  head-waits :
      (i : ℕ) (live : List ℕ) (x : Run E V F)
      → Inv os runners c (i ∷ live) x
      → (r : Handle) × (o : Completion E V) × (k : ℕ) × (get_elem? runners i ≡ some r)
        × (get_elem? os i ≡ some o)
        × (get_elem? x.waits i ≡ some (some k))
  head-waits i live x v =
      let (r, e) = get_elem?-some runners i (omega (arith, v.inside.0)) in
      let (o, at) = get_elem?-some os i v.inside.0 in
      elim (Option-cases (get_elem? x.waits i)) [
        | inl n ↦ absurd (ground (arith, v.once i v.inside.0))
        | inr (w, some') ↦ elim (Option-cases w) [
          | inl n ↦ absurd (ground (arith, v.once i v.inside.0))
          | inr (k, more) ↦ (r, o, k, e, at, some' ∙ ap some more)
        ]
      ]

  -- The rest of the loop after a pass, for an induction on the fuel.
  pass-Final :
      (fuel i : ℕ) (r : Handle) (k : ℕ) (o : Completion E V) (live : List ℕ) (x : Run E V F)
      → Inv os runners c (i ∷ live) x
      → length x.waits ≡ length os
      → get_elem? runners i ≡ some r
      → get_elem? os i ≡ some o
      → get_elem? x.waits i ≡ some (some k)
      → work x.waits + 1 < suc fuel
      → ((j : ℕ) (rest : List ℕ) (y : Run E V F)
          → Inv os runners c (j ∷ rest) y
          → length y.waits ≡ length os
          → work y.waits + 1 < fuel
          → Final os runners c (loop os runners fuel y))
      → Final os runners c (
          loop os runners fuel
            (go_on os runners i r (some (some k)) (some o) (popped os runners x)))
  pass-Final fuel i r (suc k) o [] x v wide e at w lt rest =
      rest i [] _ (yields-Inv os runners c i k r [] x v e w o)
        (omega (arith, length-set x.waits i (some k))) (omega (arith, work-set_less x.waits i k w))
  pass-Final fuel i r (suc k) o (l ∷ live) x v wide e at w lt rest =
      rest l (live ++ i ∷ []) _ (yields-Inv os runners c i k r (l ∷ live) x v e w o)
        (omega (arith, length-set x.waits i (some k))) (omega (arith, work-set_less x.waits i k w))
  pass-Final fuel i r zero o (l ∷ live) x v wide e at w lt rest =
      rest l live _ (ends-Inv os runners c i l r live x sized small v e w o at)
        (omega (arith, length-set x.waits i none)) (omega (arith, work-set_none x.waits i w))
  pass-Final zero i r zero o [] x v wide e at w lt rest =
      absurd (omega (arith, work-set_none x.waits i w))
  pass-Final (suc fuel) i r zero o [] x v wide e at w lt rest =
      Ended-Final os runners c fuel _ apart
        (last-Ended os runners c i r x sized small wide v e w o at)

  loop-Final :
      (fuel i : ℕ) (live : List ℕ) (x : Run E V F)
      → Inv os runners c (i ∷ live) x
      → length x.waits ≡ length os
      → work x.waits + 1 < fuel
      → Final os runners c (loop os runners fuel x)
  loop-Final zero i live x v wide lt = elim lt [ ]
  loop-Final (suc fuel) i live x v wide lt =
      let (r, o, k, e, at, w) = head-waits i live x v in
      let q = take-handles os runners c i r live x v e in
      let next : loop os runners (suc fuel) x
          ≡ loop os runners fuel
              (go_on os runners i r (some (some k)) (some o) (popped os runners x)) =
        loop-handle os runners fuel x r (record x.st.sched { handle_q = handles runners live }) q
        ∙ ap (loop os runners fuel) (ground (arith, distinct i r e, at, w)) in
      rw next (pass-Final fuel i r k o live x v wide e at w lt (loop-Final fuel))

-- The awaiting coroutine of a pack that is not empty, on a scheduler that serves nothing else, with
-- tasks that each await `schedule` any number of times and then end by a value or an exception: given
-- the fuel of one pass for each suspension and each end and two more, the loop empties the queue,
-- every task has ended once, the awaiting coroutine has been resumed exactly once and no other
-- coroutine, and what it gets is the exception of the first task that threw, in the order of the
-- ends, or else all values in the order of the arguments.
pub when_all_on_scheduler :
    {E V : Type 0} (F : Type 0) (os : List (Completion E V)) (runners : List Handle) (c : Handle)
    (delays : List ℕ) (fuel : ℕ)
    → length runners ≡ length os
    → length delays ≡ length os
    → 0 < length os
    → length os < 2 ^ 64
    → Each Ends os
    → IsDistinct runners
    → index_of c runners ≡ none
    → work (delayed delays) + 1 < fuel
    → let x = loop os runners fuel (start {F = F} runners c delays) in
      IsOrder (length os) x.order
      × (x.resumed ≡ c ∷ [])
      × (x.st.sched.handle_q ≡ [])
      × (await_resume x.st
          ≡ elim (first_thrown os x.order) [ none ↦ returns (values os) | some e ↦ throws e ])
unfolding await_resume start
when_all_on_scheduler F os runners c delays fuel sized wide pos small ends distinct apart enough =
    let (i, live, v) = start-live {F = F} os runners c delays sized wide pos in
    let last =
      loop-Final {F = F} os runners c sized small (λ j r e. index_of-get runners j r distinct e)
        apart fuel i live (start runners c delays) v (length-delayed delays ∙ wide) enough in
    let x = loop os runners fuel (start {F = F} runners c delays) in
    (
      last.ordered,
      last.resumed_once,
      last.queue,
      ap await_resume last.state
          ∙ when_all_outcome os x.order empty (some c) runners sized ends last.ordered,
    )
