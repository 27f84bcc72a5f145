-- ===== src/When/Any/Race.antt =====
-- Who wins a `when_any`, and what the awaiting coroutine gets.
use mathlib.Core.Option
use async.Prelude.{
  ℕ, zero, suc, ◌<◌, ◌≡◌, refl, ap, ◌∙◌, length-set, inl, inr, true, false, Option, none, some,
  List, [], ◌∷◌, arith, Option-cases, length, get_elem?, get_elem?-some, Each,
}
use async.Completion.{Completion, returns, throws, undefined, Exception}
use async.Scheduler.{Scheduler, Handle, post_handle}
use async.When.{store_into, materialize_one, materialize_tuple}
use async.When.All.{post_all}
use async.When.All.Slots.{
  mem, IsOrder, or_else, first_thrown, value_of, values, Ends, slot_after, get_elem?-set,
}
use async.When.All.Outcome.{
  thrown_by-mem, AllReturn-of_none, materialize-values, get_elem?-replicate, length-replicate,
}
use async.When.Any.{
  WhenAnyState, record_end, claim, when_any_runner, run_any, await_suspend, await_resume,
  when_any_end,
}

module _ {V : Type 0} where
  materialize-undefined :
      (slots : List (Option V)) (j : ℕ)
      → get_elem? slots j ≡ some none
      → materialize_tuple slots ≡ none
  unfolding materialize_tuple materialize_one
  materialize-undefined [] j f = cc
  materialize-undefined (s ∷ slots) zero f = ground arith
  materialize-undefined (s ∷ slots) (suc j) f = ground (arith, materialize-undefined slots j f)

module _ {E V F : Type 0} where
  record_end-same :
      (i : ℕ) (o : Completion E V) (st : WhenAnyState E V F)
      → ((record_end i o st).done ≡ st.done)
        × ((record_end i o st).sched ≡ st.sched)
        × ((record_end i o st).inline ≡ st.inline)
        × ((record_end i o st).cont ≡ st.cont)
        × ((record_end i o st).has_sched ≡ st.has_sched)
        × ((record_end i o st).index ≡ st.index)
  record_end-same i (returns v) st = (refl, refl, refl, refl, refl, refl)
  record_end-same i (throws x) st = (refl, refl, refl, refl, refl, refl)
  record_end-same i undefined st = (refl, refl, refl, refl, refl, refl)

  -- Once a task has won, the others change neither the index nor the scheduler.
  run_any-done :
      (os : List (Completion E V)) (order : List ℕ) (st : WhenAnyState E V F)
      → st.done ≡ true
      → let t = run_any os order st in
        (t.sched ≡ st.sched) × (t.inline ≡ st.inline) × (t.index ≡ st.index)
  unfolding run_any when_any_runner
  run_any-done os [] st d = (refl, refl, refl)
  run_any-done os (i ∷ order) st d = elim (Option-cases (get_elem? os i)) [
    | inl e ↦ rw (e, run_any) (run_any-done os order st d)
    | inr (o, e) ↦
        rw (e, run_any)
          (ground (arith, record_end-same i o st, run_any-done os order (when_any_runner i o st)))
  ]

  run_any-slot :
      (os : List (Completion E V)) (order : List ℕ) (st : WhenAnyState E V F) (j : ℕ)
      → get_elem? (run_any os order st).results j ≡ slot_after os order j (get_elem? st.results j)
  unfolding run_any when_any_runner
  run_any-slot os [] st j = refl
  run_any-slot os (i ∷ order) st j = elim (Option-cases (get_elem? os i)) [
    | inl e ↦ rw (e, run_any) (ground (arith, run_any-slot os order st j))
    | inr (returns v, e) ↦
        rw (e, run_any)
          (ground (
            arith,
            run_any-slot os order (when_any_runner i (returns v) st) j,
            get_elem?-set st.results i j (some v),
          ))
    | inr (throws x, e) ↦
        rw (e, run_any) (ground (arith, run_any-slot os order (when_any_runner i (throws x) st) j))
    | inr (undefined, e) ↦
        rw (e, run_any) (ground (arith, run_any-slot os order (when_any_runner i undefined st) j))
  ]

  run_any-ex :
      (os : List (Completion E V)) (order : List ℕ) (st : WhenAnyState E V F)
      → (run_any os order st).ex ≡ or_else st.ex (first_thrown os order)
  unfolding run_any when_any_runner
  run_any-ex os [] st = ground arith
  run_any-ex os (i ∷ order) st = elim (Option-cases (get_elem? os i)) [
    | inl e ↦ rw (e, run_any) (ground (arith, run_any-ex os order st))
    | inr (o, e) ↦ rw (e, run_any) (ground (arith, run_any-ex os order (when_any_runner i o st)))
  ]

  -- The task that ends first wins, by a value or an exception: its index is kept, and it posts the
  -- awaiting coroutine behind the runners. The tasks that end later, in whatever order, change
  -- neither; so the coroutine is posted once.
  pub when_any_first_wins :
      (os : List (Completion E V)) (i : ℕ) (order : List ℕ) (s : Scheduler F) (h : Option Handle)
      (runners : List Handle)
      → i < length os
      → let t = run_any os (i ∷ order) (await_suspend s h runners) in
        (t.index ≡ i) × (t.sched ≡ post_handle h (post_all runners s))
  unfolding run_any when_any_runner await_suspend
  when_any_first_wins os i order s h runners lt =
      let (o, e) = get_elem?-some os i lt in
      rw (e, run_any)
        (ground (
          arith,
          record_end-same i o (await_suspend s h runners),
          run_any-done os order (when_any_runner i o (await_suspend s h runners)),
        ))

  -- When the coroutine goes on after the tasks of `order` have ended, it throws the exception of the
  -- first of them that threw, also if a task that returned a value has won.
  pub when_any_throws_first :
      (os : List (Completion E V)) (order : List ℕ) (s : Scheduler F) (h : Option Handle)
      (runners : List Handle) (x : Exception E)
      → first_thrown os order ≡ some x
      → when_any_end (run_any os order (await_suspend s h runners)) ≡ throws x
  unfolding when_any_end await_resume await_suspend
  when_any_throws_first os order s h runners x e =
      ground (arith, run_any-ex os order (await_suspend s h runners))

  -- A race with a loser: if no task that has ended threw, and some task of the pack
  -- has not ended yet, then the end of `when_any` has undefined behaviour, since it
  -- dereferences the empty slot of that task.
  pub when_any_undefined :
      (os : List (Completion E V)) (order : List ℕ) (s : Scheduler F) (h : Option Handle)
      (runners : List Handle) (j : ℕ)
      → length runners ≡ length os
      → j < length os
      → mem j order ≡ false
      → first_thrown os order ≡ none
      → when_any_end (run_any os order (await_suspend s h runners)) ≡ undefined
  unfolding when_any_end await_resume await_suspend
  when_any_undefined os order s h runners j er lt out e =
      let st = run_any os order (await_suspend s h runners) in
      ground (
        arith,
        run_any-ex os order (await_suspend s h runners),
        materialize-undefined st.results j,
        run_any-slot os order (await_suspend s h runners) j,
        get_elem?-replicate {A = Option V} (length runners) j none (omega arith),
      )

  record_end-length :
      (i : ℕ) (o : Completion E V) (st : WhenAnyState E V F)
      → length (record_end i o st).results ≡ length st.results
  unfolding store_into
  record_end-length i (returns v) st = length-set st.results i (some v)
  record_end-length i (throws x) st = refl
  record_end-length i undefined st = refl

  claim-results : (i : ℕ) (st : WhenAnyState E V F) → (claim i st).results ≡ st.results
  claim-results i st = ground arith

  run_any-length :
      (os : List (Completion E V)) (order : List ℕ) (st : WhenAnyState E V F)
      → length (run_any os order st).results ≡ length st.results
  unfolding run_any when_any_runner
  run_any-length os [] st = refl
  run_any-length os (i ∷ order) st = elim (Option-cases (get_elem? os i)) [
    | inl e ↦ rw (e, run_any) (run_any-length os order st)
    | inr (o, e) ↦
        rw (e, run_any)
          (run_any-length os order (when_any_runner i o st)
            ∙ ap length (claim-results i (record_end i o st))
            ∙ record_end-length i o st)
  ]

  slots_filled :
      (os : List (Completion E V)) (order : List ℕ) (s : Scheduler F) (h : Option Handle)
      (runners : List Handle)
      → length runners ≡ length os
      → IsOrder (length os) order
      → (j : ℕ) → j < length os
      → get_elem? (run_any os order (await_suspend s h runners)).results j
        ≡ Option.map value_of (get_elem? os j)
  unfolding await_suspend
  slots_filled os order s h runners er ord j lt =
      let (o, e) = get_elem?-some os j lt in
      ground (
        arith,
        run_any-slot os order (await_suspend s h runners) j,
        get_elem?-replicate {A = Option V} (length runners) j none (omega arith),
        ord.covers j lt,
        e,
      )

  -- When every task has ended by a value before the coroutine goes on, `when_any` returns the index
  -- of the task that ended first and the values of all, in the order of the arguments. The
  -- hypotheses: each task ends by a value or an exception, none threw, and `i ∷ order` lists every
  -- task once.
  pub when_any_all_returned :
      (os : List (Completion E V)) (i : ℕ) (order : List ℕ) (s : Scheduler F) (h : Option Handle)
      (runners : List Handle)
      → length runners ≡ length os
      → Each Ends os
      → IsOrder (length os) (i ∷ order)
      → first_thrown os (i ∷ order) ≡ none
      → when_any_end (run_any os (i ∷ order) (await_suspend s h runners)) ≡ returns (i, values os)
  unfolding when_any_end await_resume await_suspend
  when_any_all_returned os i order s h runners er ends ord e =
      let st = run_any os (i ∷ order) (await_suspend s h runners) in
      let first = when_any_first_wins os i order s h runners ord.below.0 in
      let returned =
        AllReturn-of_none os ends (λ j lt. thrown_by-mem os (i ∷ order) j e (ord.covers j lt)) in
      let filled = slots_filled os (i ∷ order) s h runners er ord in
      let sized =
        run_any-length os (i ∷ order) (await_suspend s h runners)
        ∙ length-replicate (length runners) none
        ∙ er in
      ground (
        arith,
        run_any-ex os (i ∷ order) (await_suspend s h runners),
        first,
        materialize-values os st.results sized returned filled,
      )
