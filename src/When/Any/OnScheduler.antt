-- ===== src/When/Any/OnScheduler.antt =====
-- `when_any` of include/vix/async/core/when.hpp on the loop of include/vix/async/core/scheduler.hpp,
-- up to the resumption of the awaiting coroutine. The runners are coroutines in the queue of one
-- scheduler, which nothing else uses; each task awaits `schedule` a number of times before it ends.
pub mod Round
pub mod Prompt
pub mod Whole
mod Tests
use async.Prelude.{
  ℕ, zero, suc, ◌+◌, ◌<◌, ◌≡◌, refl, sym, ap, ◌∙◌, inl, inr, true, false, Option, none, some, List,
  [], ◌∷◌, ◌++◌, append_assoc, arith, Option-cases, length, get_elem?, get_elem?-some, set,
  get_elem?-set_other,
}
use async.Completion.{Completion, returns, throws, undefined}
use async.Scheduler.{Scheduler, Handle, handle, take, empty, post_handle}
use async.Scheduler.Schedule
use async.When.{resume_cont}
use async.When.All.OnScheduler.{index_of, delayed}
use async.When.Any.{WhenAnyState, record_end, when_any_runner, run_any, await_suspend}

-- `waits` has for each task the number of times that it will still suspend, and `none` once it has
-- ended. `order` lists the tasks that have ended, oldest first.
pub record Run (E V F : Type 0) : Type 0 where
  pub st : WhenAnyState E V F
  pub waits : List (Option ℕ)
  pub order : List ℕ

module _ {E V F : Type 0} (os : List (Completion E V)) (runners : List Handle) where
  -- Task `i` goes on: it awaits `schedule`, or it ends.
  abbrev pub go_on :
      ℕ → Handle → Option (Option ℕ) → Option (Completion E V) → Run E V F → Run E V F
  go_on i h (some (some zero)) (some o) x = record x {
    st = when_any_runner i o x.st;
    waits = set x.waits i none;
    order = x.order ++ i ∷ [];
  }
  go_on i h (some (some (suc k))) (some o) x = record x {
    st = record x.st { sched = (Schedule.await_suspend true (some h) (x.st.sched, [])).0 };
    waits = set x.waits i (some k);
  }
  go_on i h _ _ x = x

  abbrev pub popped : Run E V F → Run E V F
  popped x = record x { st = record x.st { sched = (take x.st.sched).1 } }

  -- The passes of `run` until a coroutine that is no runner, and so the awaiting one, is resumed.
  unfoldable pub race : ℕ → Run E V F → Option (Run E V F)
  unfolding take when_any_runner Schedule.await_suspend
  race zero x = none
  race (suc fuel) x = elim (take x.st.sched).0 [
    | handle h ↦ elim (index_of h runners) [
      | none ↦ some (popped x)
      | some i ↦ race fuel (go_on i h (get_elem? x.waits i) (get_elem? os i) (popped x))
    ]
    | _ ↦ none
  ]

-- The coroutine `c` awaits the pack, on a scheduler with empty queues.
unfoldable pub start : {E V F : Type 0} → List Handle → Handle → List ℕ → Run E V F
unfolding await_suspend
start runners c delays = record {
  st = await_suspend empty (some c) runners;
  waits = delayed delays;
  order = [];
}

-- The tasks that end without suspending; the first delay is the one of task `i`.
abbrev pub prompt : ℕ → List ℕ → List ℕ
prompt i [] = []
prompt i (zero ∷ ds) = i ∷ prompt (suc i) ds
prompt i (suc k ∷ ds) = prompt (suc i) ds
