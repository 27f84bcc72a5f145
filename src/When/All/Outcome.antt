-- ===== src/When/All/Outcome.antt =====
-- The value or the exception that `when_all` ends with.
use mathlib.Core.Option
use async.Prelude.{
  ℕ, zero, suc, ◌<◌, ◌≡◌, refl, ap, ◌∙◌, length-set, inl, inr, true, Option, none, some, List, [],
  ◌∷◌, arith, ◌==◌, Bool-cases, Option-cases, length, get_elem?, replicate, get_elem?-some, Each,
}
use async.Completion.{Completion, returns, throws, undefined}
use async.Scheduler.{Scheduler, Handle}
use async.When.{store_into, materialize_one, materialize_tuple}
use async.When.All.{WhenAllState, record_end, when_all_runner, run_all, await_suspend, await_resume}
use async.When.All.Slots.{
  mem, IsOrder, thrown_by, first_thrown, value_of, values, Ends, run_all-slot, run_all-first_ex,
}

module _ {E V : Type 0} where
  pub thrown_by-mem :
      (os : List (Completion E V)) (order : List ℕ) (j : ℕ)
      → first_thrown os order ≡ none
      → mem j order ≡ true
      → thrown_by (get_elem? os j) ≡ none
  thrown_by-mem os [] j e m = cc
  thrown_by-mem os (i ∷ order) j e m = elim (Bool-cases (i == j)) [
    | inl same ↦ ground arith
    | inr other ↦ thrown_by-mem os order j (ground arith) (ground arith)
  ]

  -- Every task of the pack has returned a value.
  abbrev pub AllReturn : List (Completion E V) → Type 0
  AllReturn [] = Unit {0}
  AllReturn (returns v ∷ os) = AllReturn os
  AllReturn (_ ∷ os) = ⊥

  pub AllReturn-of_none :
      (os : List (Completion E V))
      → Each Ends os
      → ((j : ℕ) → j < length os → thrown_by (get_elem? os j) ≡ none)
      → AllReturn os
  AllReturn-of_none [] e h = tt
  AllReturn-of_none (returns v ∷ os) e h =
      AllReturn-of_none os e.1 (λ j lt. h (suc j) (omega arith))
  AllReturn-of_none (throws x ∷ os) e h = cc (h 0 (omega arith))
  AllReturn-of_none (undefined ∷ os) e h = e.0

  pub materialize-values :
      (os : List (Completion E V)) (slots : List (Option V))
      → length slots ≡ length os
      → AllReturn os
      → ((j : ℕ) → j < length os → get_elem? slots j ≡ Option.map value_of (get_elem? os j))
      → materialize_tuple slots ≡ some (values os)
  unfolding materialize_tuple materialize_one
  materialize-values [] [] n r h = refl
  materialize-values [] (s ∷ slots) n r h = absurd (omega (arith, n))
  materialize-values (o ∷ os) [] n r h = absurd (omega (arith, n))
  materialize-values (throws x ∷ os) (s ∷ slots) n r h = elim r [ ]
  materialize-values (undefined ∷ os) (s ∷ slots) n r h = elim r [ ]
  materialize-values (returns v ∷ os) (s ∷ slots) n r h = ground (
    arith,
    h 0,
    materialize-values os slots (omega (arith, n)) r (λ j lt. h (suc j) (omega arith)),
  )

pub length-replicate : {A : Type 0} (n : ℕ) (a : A) → length (replicate n a) ≡ n
length-replicate zero a = refl
length-replicate (suc n) a = ap suc (length-replicate n a)

pub get_elem?-replicate :
    {A : Type 0} (n j : ℕ) (a : A) → j < n → get_elem? (replicate n a) j ≡ some a
get_elem?-replicate zero j a lt = elim lt [ ]
get_elem?-replicate (suc n) zero a lt = refl
get_elem?-replicate (suc n) (suc j) a lt = get_elem?-replicate n j a (omega arith)

module _ {E V F : Type 0} where
  record_end-length :
      (i : ℕ) (o : Completion E V) (st : WhenAllState E V F)
      → length (record_end i o st).results ≡ length st.results
  unfolding store_into
  record_end-length i (returns v) st = length-set st.results i (some v)
  record_end-length i (throws x) st = refl
  record_end-length i undefined st = refl

  run_all-length :
      (os : List (Completion E V)) (order : List ℕ) (st : WhenAllState E V F)
      → length (run_all os order st).results ≡ length st.results
  unfolding run_all when_all_runner
  run_all-length os [] st = refl
  run_all-length os (i ∷ order) st = elim (Option-cases (get_elem? os i)) [
    | inl e ↦ rw (e, run_all) (run_all-length os order st)
    | inr (o, e) ↦
        rw (e, run_all)
          (ground
            (arith, run_all-length os order (when_all_runner i o st), record_end-length i o st))
  ]

  slots_filled :
      (os : List (Completion E V)) (order : List ℕ) (s : Scheduler F) (h : Option Handle)
      (runners : List Handle)
      → length runners ≡ length os
      → IsOrder (length os) order
      → (j : ℕ) → j < length os
      → get_elem? (run_all os order (await_suspend s h runners)).results j
        ≡ Option.map value_of (get_elem? os j)
  unfolding await_suspend
  slots_filled os order s h runners er ord j lt =
      let (o, e) = get_elem?-some os j lt in
      ground (
        arith,
        run_all-slot os order (await_suspend s h runners) j,
        get_elem?-replicate {A = Option V} (length runners) j none (omega arith),
        ord.covers j lt,
        e,
      )

  -- For every order in which the tasks end: `when_all` ends with the exception of the first of them
  -- that threw, and if none threw with all values, in the order of the arguments and not of the ends.
  -- The hypotheses: each task ends by a value or an exception, and `order` lists every task once.
  pub when_all_outcome :
      (os : List (Completion E V)) (order : List ℕ) (s : Scheduler F) (h : Option Handle)
      (runners : List Handle)
      → length runners ≡ length os
      → Each Ends os
      → IsOrder (length os) order
      → await_resume (run_all os order (await_suspend s h runners))
        ≡ elim (first_thrown os order) [ none ↦ returns (values os) | some x ↦ throws x ]
  unfolding await_suspend await_resume
  when_all_outcome os order s h runners er ends ord = elim (Option-cases (first_thrown os order)) [
    | inr (x, e) ↦ ground (arith, run_all-first_ex os order (await_suspend s h runners))
    | inl e ↦ ground (
      arith,
      run_all-first_ex os order (await_suspend s h runners),
      materialize-values os (run_all os order (await_suspend s h runners)).results
          (run_all-length os order (await_suspend s h runners)
            ∙ length-replicate (length runners) none
            ∙ er)
          (AllReturn-of_none os ends (λ j lt. thrown_by-mem os order j e (ord.covers j lt)))
          (slots_filled os order s h runners er ord),
    )
  ]
