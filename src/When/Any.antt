-- ===== src/When/Any.antt =====
-- `when_any`: the state, the runner of one task, the awaitable and what the coroutine returns.
pub mod Race
pub mod OnScheduler
use async.Prelude.{
  ℕ, ◌-◌, ◌^◌, Bool, true, false, Option, none, some, List, [], ◌∷◌, if◌then◌else◌, length,
  get_elem?, replicate,
}
use async.Completion.{Completion, returns, throws, undefined, Exception}
use async.Scheduler.{Scheduler, Handle}
use async.When.{store_into, materialize_tuple, keep_first, resume_cont}
use async.When.All.{post_all, give}

-- `when_any_state`
pub record WhenAnyState (E V F : Type 0) : Type 0 where
  pub has_sched : Bool
  pub sched : Scheduler F
  pub inline : List Handle
  pub done : Bool
  pub cont : Option Handle
  pub ex : Option (Exception E)
  pub index : ℕ  -- std::size_t
  pub results : List (Option V)

abbrev pub with_index : {E A : Type 0} → ℕ → Completion E A → Completion E (ℕ × A)
with_index i (returns a) = returns (i, a)
with_index i (throws x) = throws x
with_index i undefined = undefined

-- The end of the coroutine `when_any`: it materializes every slot of the pack.
abbrev pub finish : {E V : Type 0} → Completion E (ℕ × List (Option V)) → Completion E (ℕ × List V)
finish (returns (i, raw)) = with_index i (give (materialize_tuple raw))
finish (throws x) = throws x
finish undefined = undefined

module _ {E V F : Type 0} where
  abbrev pub record_end : ℕ → Completion E V → WhenAnyState E V F → WhenAnyState E V F
  record_end i (returns v) st = record st { results = store_into i v st.results }
  record_end i (throws x) st = record st { ex = keep_first st.ex x }
  record_end i undefined st = st

  -- The compare-and-swap on `done`: the first to come wins.
  abbrev pub claim : ℕ → WhenAnyState E V F → WhenAnyState E V F
  claim i st =
      if st.done
      then st
      else (let r = resume_cont st.has_sched st.cont (st.sched, st.inline) in
          record st { done = true; index = i; sched = r.0; inline = r.1 })

  -- `when_any_runner` of task `i`, from the end of the task on.
  unfoldable pub when_any_runner : ℕ → Completion E V → WhenAnyState E V F → WhenAnyState E V F
  unfolding store_into
  when_any_runner i o st = claim i (record_end i o st)

  -- The tasks `os` of the pack end in the order of the list.
  unfoldable pub run_any : List (Completion E V) → List ℕ → WhenAnyState E V F → WhenAnyState E V F
  run_any os [] st = st
  run_any os (i ∷ order) st = elim (get_elem? os i) [
    | none ↦ run_any os order st
    | some o ↦ run_any os order (when_any_runner i o st)
  ]

  -- `when_any_awaitable::await_suspend`, with the handles of its runners.
  unfoldable pub await_suspend : Scheduler F → Option Handle → List Handle → WhenAnyState E V F
  await_suspend s h runners = record {
    has_sched = true;
    sched = post_all runners s;
    inline = [];
    done = false;
    cont = h;
    ex = none;
    index = 2 ^ 64 - 1;
    results = replicate (length runners) none;
  }

  -- `when_any_awaitable::await_resume`
  unfoldable pub await_resume : WhenAnyState E V F → Completion E (ℕ × List (Option V))
  await_resume st = elim st.ex [ some x ↦ throws x | none ↦ returns (st.index, st.results) ]

  unfoldable pub when_any_end : WhenAnyState E V F → Completion E (ℕ × List V)
  unfolding await_resume materialize_tuple
  when_any_end st = finish (await_resume st)
