-- ===== src/When/All/OnScheduler.antt =====
-- `when_all` of include/vix/async/core/when.hpp on the loop of include/vix/async/core/scheduler.hpp:
-- the runners of a pack are coroutines in the queue of one scheduler, which nothing else uses. Each
-- task awaits `schedule` a number of times before it ends.
pub mod Runners
pub mod Passes
pub mod Start
pub mod Whole
mod Tests
use async.Prelude.{
  ℕ, zero, suc, ◌+◌, ◌-◌, ◌*◌, ◌%◌, ◌^◌, ◌≤◌, ◌<◌, ◌≡◌, refl, sym, ap, ◌∙◌, ◌≢◌, ◌↔◌, ◌⊎◌, inl, inr,
  Bool, true, false, ◌&&◌, ◌||◌, not, Option, none, some, List, [], ◌∷◌, ◌++◌, map, append-nil,
  append_assoc, arith, dec_lt, ℕ_discrete, ltb, leb, ◌==◌, if◌then◌else◌, ltb→lt, lt→ltb, leb→le,
  ==_iff, tests, Bool-cases, Option-cases, length, get_elem?, set, replicate, is_empty, is_some,
  length-append, length-set, get_elem?-some, Each, Each-append, get_elem?-set_self,
  get_elem?-set_other, count, count-append,
}
use async.Completion.{Completion, returns, throws, undefined}
use async.Scheduler.{Scheduler, Handle, Item, handle, callable, leave, nothing, take, empty}
use async.Scheduler.Schedule
use async.When.All.{WhenAllState, when_all_runner, await_suspend}

-- `waits` has for each task the number of times that it will still suspend, and `none` once it has
-- ended. `order` lists the tasks that have ended, and `resumed` the coroutines that were resumed and
-- are no runners, both oldest first.
pub record Run (E V F : Type 0) : Type 0 where
  pub st : WhenAllState E V F
  pub waits : List (Option ℕ)
  pub order : List ℕ
  pub resumed : List Handle

-- The position of a handle among the runners.
abbrev pub index_of : Handle → List Handle → Option ℕ
index_of h [] = none
index_of h (r ∷ rs) =
    let rest = index_of h rs in
    if r == h then some 0 else elim rest [ none ↦ none | some i ↦ some (suc i) ]

module _ {E V F : Type 0} (os : List (Completion E V)) (runners : List Handle) where
  -- Task `i` goes on: it awaits `schedule`, or it ends.
  abbrev pub go_on :
      ℕ → Handle → Option (Option ℕ) → Option (Completion E V) → Run E V F → Run E V F
  go_on i h (some (some zero)) (some o) x = record x {
    st = when_all_runner i o x.st;
    waits = set x.waits i none;
    order = x.order ++ i ∷ [];
  }
  go_on i h (some (some (suc k))) o x = record x {
    st = record x.st { sched = (Schedule.await_suspend true (some h) (x.st.sched, [])).0 };
    waits = set x.waits i (some k);
  }
  go_on i h _ o x = x

  -- The resumption of a coroutine: of a runner, or of the one that awaits the pack.
  abbrev pub resume : Option ℕ → Handle → Run E V F → Run E V F
  resume (some i) h x = go_on i h (get_elem? x.waits i) (get_elem? os i) x
  resume none h x = record x { resumed = x.resumed ++ h ∷ [] }

  abbrev pub popped : Run E V F → Run E V F
  popped x = record x { st = record x.st { sched = (take x.st.sched).1 } }

  -- The passes of `run` until the queue is empty, on fuel.
  unfoldable pub loop : ℕ → Run E V F → Run E V F
  unfolding take when_all_runner Schedule.await_suspend
  loop zero x = x
  loop (suc fuel) x = elim (take x.st.sched).0 [
    | handle h ↦ loop fuel (resume (index_of h runners) h (popped x))
    | _ ↦ x
  ]

-- The passes that the pack takes.
abbrev pub work : List (Option ℕ) → ℕ
work [] = 0
work (none ∷ ws) = work ws
work (some k ∷ ws) = suc k + work ws

-- Every task has still to suspend as often as its delay says.
abbrev pub delayed : List ℕ → List (Option ℕ)
delayed [] = []
delayed (d ∷ ds) = some d ∷ delayed ds

-- The coroutine `c` awaits the pack, on a scheduler with empty queues.
unfoldable pub start : {E V F : Type 0} → List Handle → Handle → List ℕ → Run E V F
unfolding await_suspend
start runners c delays = record {
  st = await_suspend empty (some c) runners;
  waits = delayed delays;
  order = [];
  resumed = [];
}

-- No handle stands for two coroutines.
abbrev pub IsDistinct : List Handle → Type 0
IsDistinct [] = Unit {0}
IsDistinct (h ∷ hs) = (index_of h hs ≡ none) × IsDistinct hs
