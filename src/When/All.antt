-- ===== src/When/All.antt =====
-- `when_all`: the state, the runner of one task, and the awaitable.
pub mod Slots
pub mod Results
pub mod Outcome
pub mod OnScheduler
use async.Prelude.{
  ℕ, ◌+◌, ◌-◌, ◌%◌, ◌^◌, Bool, true, Option, none, some, List, [], ◌∷◌, ◌==◌, if◌then◌else◌, length,
  get_elem?, replicate,
}
use async.Completion.{Completion, returns, throws, undefined, Exception}
use async.Scheduler.{Scheduler, Handle, post_handle}
use async.When.{store_into, materialize_tuple, keep_first, resume_cont}

-- `when_all_state`; `has_sched` is false for the null scheduler.
pub record WhenAllState (E V F : Type 0) : Type 0 where
  pub has_sched : Bool
  pub sched : Scheduler F
  pub inline : List Handle
  pub remaining : ℕ  -- std::size_t
  pub cont : Option Handle
  pub first_ex : Option (Exception E)
  pub results : List (Option V)

abbrev pub post_all : {F : Type 0} → List Handle → Scheduler F → Scheduler F
post_all [] s = s
post_all (h ∷ hs) s = post_all hs (post_handle (some h) s)

abbrev pub give : {E A : Type 0} → Option A → Completion E A
give none = undefined
give (some a) = returns a

module _ {E V F : Type 0} where
  -- The part of `when_all_runner` up to the end of the `try` block and its handler.
  abbrev pub record_end : ℕ → Completion E V → WhenAllState E V F → WhenAllState E V F
  record_end i (returns v) st = record st { results = store_into i v st.results }
  record_end i (throws x) st = record st { first_ex = keep_first st.first_ex x }
  record_end i undefined st = st

  abbrev pub count_down : WhenAllState E V F → WhenAllState E V F
  count_down st =
      let st' = record st { remaining = (st.remaining + 2 ^ 64 - 1) % 2 ^ 64 } in
      if st.remaining == 1
      then (let r = resume_cont st.has_sched st.cont (st.sched, st.inline) in
          record st' { sched = r.0; inline = r.1 })
      else st'

  -- `when_all_runner` of task `i`, from the end of the task on.
  unfoldable pub when_all_runner : ℕ → Completion E V → WhenAllState E V F → WhenAllState E V F
  unfolding store_into
  when_all_runner i o st = count_down (record_end i o st)

  -- The tasks `os` of the pack end in the order of the list.
  unfoldable pub run_all : List (Completion E V) → List ℕ → WhenAllState E V F → WhenAllState E V F
  run_all os [] st = st
  run_all os (i ∷ order) st = elim (get_elem? os i) [
    | none ↦ run_all os order st
    | some o ↦ run_all os order (when_all_runner i o st)
  ]

  -- `when_all_awaitable::await_suspend`, with the handles of its runners: `start_all` posts each.
  unfoldable pub await_suspend : Scheduler F → Option Handle → List Handle → WhenAllState E V F
  await_suspend s h runners = record {
    has_sched = true;
    sched = post_all runners s;
    inline = [];
    remaining = length runners;
    cont = h;
    first_ex = none;
    results = replicate (length runners) none;
  }

  -- `when_all_awaitable::await_resume`
  unfoldable pub await_resume : WhenAllState E V F → Completion E (List V)
  unfolding materialize_tuple
  await_resume st = elim st.first_ex [
    | some x ↦ throws x
    | none ↦ give (materialize_tuple st.results)
  ]
