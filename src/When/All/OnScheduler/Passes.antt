-- ===== src/When/All/OnScheduler/Passes.antt =====
-- One pass of the loop: the queue holds each runner whose task has not ended, once.
use async.Prelude.{
  ℕ, zero, suc, ◌+◌, ◌^◌, ◌<◌, ◌≡◌, sym, ap, ◌∙◌, inl, inr, true, ◌||◌, Option, none, some, List,
  [], ◌∷◌, ◌++◌, arith, ℕ_discrete, ◌==◌, if◌then◌else◌, Option-cases, length, get_elem?, set,
  length-append, get_elem?-some, Each, Each-append, get_elem?-set_self, get_elem?-set_other, count,
  count-append,
}
use async.Completion.{Completion}
use async.Scheduler.{Scheduler, Handle, handle, take, post_handle, empty}
use async.Scheduler.Schedule
use async.When.All.{WhenAllState, when_all_runner, run_all, await_suspend}
use async.When.All.Slots.{mem}
use async.When.All.OnScheduler.{Run, go_on, popped, work}
use async.When.All.OnScheduler.Runners.{
  with_sched, runner-with_sched_waits, runner-with_sched_resumes, run_all-snoc, run_all-counts,
}

abbrev pub handles : List Handle → List ℕ → List Handle
handles runners [] = []
handles runners (i ∷ is) = elim (get_elem? runners i) [
  | none ↦ handles runners is
  | some r ↦ r ∷ handles runners is
]

handles-append :
    (runners : List Handle) (xs : List ℕ) (i : ℕ) (r : Handle)
    → get_elem? runners i ≡ some r
    → handles runners (xs ++ i ∷ []) ≡ handles runners xs ++ r ∷ []
handles-append runners [] i r e = ground arith
handles-append runners (x ∷ xs) i r e = ground (arith, handles-append runners xs i r)

abbrev pub waiting : Option (Option ℕ) → ℕ
waiting (some (some k)) = 1
waiting _ = 0

mem-append : (j i : ℕ) (xs : List ℕ) → mem j (xs ++ i ∷ []) ≡ (mem j xs || i == j)
mem-append j i [] = ground arith
mem-append j i (x ∷ xs) = ground (arith, mem-append j i xs)

pub work-set_less :
    (ws : List (Option ℕ)) (i k : ℕ)
    → get_elem? ws i ≡ some (some (suc k))
    → work (set ws i (some k)) + 1 ≡ work ws
work-set_less [] i k e = cc
work-set_less (w ∷ ws) zero k e = ground arith
work-set_less (none ∷ ws) (suc i) k e = work-set_less ws i k e
work-set_less (some j ∷ ws) (suc i) k e = omega (arith, work-set_less ws i k e)

pub work-set_none :
    (ws : List (Option ℕ)) (i : ℕ)
    → get_elem? ws i ≡ some (some 0)
    → work (set ws i none) + 1 ≡ work ws
work-set_none [] i e = cc
work-set_none (w ∷ ws) zero e = ground arith
work-set_none (none ∷ ws) (suc i) e = work-set_none ws i e
work-set_none (some j ∷ ws) (suc i) e = omega (arith, work-set_none ws i e)

waiting-set :
    (ws : List (Option ℕ)) (i j : ℕ) (old new : Option ℕ)
    → get_elem? ws i ≡ some old
    → waiting (get_elem? (set ws i new) j)
      ≡ (if i == j then waiting (some new) else waiting (get_elem? ws j))
waiting-set ws i j old new e = elim (ℕ_discrete i j) [
  | yes same ↦ ground (arith, get_elem?-set_self ws i old new e)
  | no other ↦ ground (arith, get_elem?-set_other ws i j new other)
]

set-none :
    (ws : List (Option ℕ)) (i j k : ℕ)
    → get_elem? ws i ≡ some (some (suc k))
    → get_elem? (set ws i (some k)) j ≡ some none
    → get_elem? ws j ≡ some none
set-none ws i j k e done = elim (ℕ_discrete i j) [
  | yes same ↦ ground (arith, get_elem?-set_self ws i (some (suc k)) (some k) e)
  | no other ↦ ground (arith, get_elem?-set_other ws i j (some k) other)
]

covers-ended :
    (ws : List (Option ℕ)) (order : List ℕ) (i j : ℕ)
    → (get_elem? ws j ≡ some none → mem j order ≡ true)
    → get_elem? (set ws i none) j ≡ some none
    → mem j (order ++ i ∷ []) ≡ true
covers-ended ws order i j h done = elim (ℕ_discrete i j) [
  | yes same ↦ ground (arith, mem-append j i order)
  | no other ↦ ground (arith, mem-append j i order, get_elem?-set_other ws i j none other, h)
]

-- The only live task is `i`.
covers-last :
    (ws : List (Option ℕ)) (order : List ℕ) (i j : ℕ)
    → j < length ws
    → count j (i ∷ []) ≡ waiting (get_elem? ws j)
    → (get_elem? ws j ≡ some none → mem j order ≡ true)
    → mem j (order ++ i ∷ []) ≡ true
covers-last ws order i j lt one h =
    let (w, e) = get_elem?-some ws j lt in
    elim (Option-cases w) [
      | inl ended ↦ ground (arith, mem-append j i order, h)
      | inr (k, more) ↦ ground (arith, mem-append j i order)
    ]

module _ {E V F : Type 0} (os : List (Completion E V)) (runners : List Handle) (c : Handle) where
  abbrev pub begun : WhenAllState E V F
  begun = await_suspend empty (some c) runners

  -- `live` lists the tasks that have not ended, in the order of the queue.
  pub record Inv (live : List ℕ) (x : Run E V F) : Type 0 where
    pub queue : x.st.sched.handle_q ≡ handles runners live
    pub fns : x.st.sched.fn_q ≡ []
    pub state : x.st ≡ with_sched x.st.sched (run_all os x.order begun)
    pub once : (j : ℕ) → j < length os → count j live ≡ waiting (get_elem? x.waits j)
    pub inside : Each (λ j. j < length os) live
    pub below : Each (λ j. j < length os) x.order
    pub long : length x.order + length live ≡ length os
    pub covers : (j : ℕ) → j < length os → get_elem? x.waits j ≡ some none → mem j x.order ≡ true
    pub unresumed : x.resumed ≡ []

  pub take-handles :
      (i : ℕ) (r : Handle) (live : List ℕ) (x : Run E V F)
      → Inv (i ∷ live) x
      → get_elem? runners i ≡ some r
      → take x.st.sched ≡ (handle r, record x.st.sched { handle_q = handles runners live })
  unfolding take
  take-handles i r live x v e = ground (arith, v.queue)

  -- The task at the head suspends once more: its runner goes to the end of the queue.
  pub yields-Inv :
      (i k : ℕ) (r : Handle) (live : List ℕ) (x : Run E V F)
      → Inv (i ∷ live) x
      → get_elem? runners i ≡ some r
      → get_elem? x.waits i ≡ some (some (suc k))
      → (o : Completion E V)
      → Inv
          (live ++ i ∷ [])
          (go_on {F = F} os runners i r (some (some (suc k))) (some o) (popped os runners x))
  unfolding post_handle Schedule.await_suspend
  yields-Inv i k r live x v e w o =
      let q = take-handles i r live x v e in
      record {
        queue = ground (arith, q, handles-append runners live i r);
        fns = ground (arith, q, v.fns);
        state = ap (with_sched (post_handle (some r) (take x.st.sched).1)) v.state;
        once = λ j lt. ground (
          arith,
          count-append j live (i ∷ []),
          v.once j lt,
          waiting-set x.waits i j (some (suc k)) (some k) w,
        );
        inside = Each-append (λ (j : ℕ). j < length os) live (i ∷ []) v.inside.1 (v.inside.0, tt);
        below = v.below;
        long = ground (arith, v.long, length-append live (i ∷ []));
        covers = λ j lt done. v.covers j lt (set-none x.waits i j k w done);
        unresumed = v.unresumed;
      }

  -- What is left to count while a task is live.
  run-counts :
      (live : List ℕ) (x : Run E V F)
      → Inv live x
      → length runners ≡ length os
      → length os < 2 ^ 64
      → let t = run_all os x.order begun in
        (t.remaining ≡ length live) × (t.cont ≡ some c) × (t.has_sched ≡ true)
  unfolding await_suspend
  run-counts live x v sized small =
      let (r, k, h) =
        run_all-counts os x.order begun v.below (omega (arith, v.long)) (omega arith) in
      (omega (arith, v.long), k, h)

  -- The task at the head ends, and others are left.
  pub ends-Inv :
      (i l : ℕ) (r : Handle) (live : List ℕ) (x : Run E V F)
      → length runners ≡ length os
      → length os < 2 ^ 64
      → Inv (i ∷ l ∷ live) x
      → get_elem? runners i ≡ some r
      → get_elem? x.waits i ≡ some (some 0)
      → (o : Completion E V) → get_elem? os i ≡ some o
      → Inv (l ∷ live) (go_on {F = F} os runners i r (some (some 0)) (some o) (popped os runners x))
  ends-Inv i l r live x sized small v e w o at =
      let q = take-handles i r (l ∷ live) x v e in
      let (more, _, _) = run-counts (i ∷ l ∷ live) x v sized small in
      let st = run_all os x.order begun in
      let same =
        ap (when_all_runner i o) (ap (with_sched (take x.st.sched).1) v.state)
        ∙ runner-with_sched_waits i o st (take x.st.sched).1 (omega arith)
        ∙ ap (with_sched (take x.st.sched).1) (sym (run_all-snoc os x.order i o begun at)) in
      record {
        queue = ground (arith, same, q);
        fns = ground (arith, same, q, v.fns);
        state =
            same
            ∙ ap (λ (p : Scheduler F). with_sched p (run_all os (x.order ++ i ∷ []) begun))
                (sym (ap (λ (a : WhenAllState E V F). a.sched) same));
        once = λ j lt. ground (arith, v.once j lt, waiting-set x.waits i j (some 0) none w);
        inside = v.inside.1;
        below = Each-append (λ (j : ℕ). j < length os) x.order (i ∷ []) v.below (v.inside.0, tt);
        long = ground (arith, v.long, length-append x.order (i ∷ []));
        covers = λ j lt done. covers-ended x.waits x.order i j (v.covers j lt) done;
        unresumed = v.unresumed;
      }

  -- Every task has ended, and the awaiting coroutine is alone in the queue.
  pub record Ended (x : Run E V F) : Type 0 where
    pub queue : x.st.sched.handle_q ≡ c ∷ []
    pub fns : x.st.sched.fn_q ≡ []
    pub state : x.st ≡ with_sched x.st.sched (run_all os x.order begun)
    pub below : Each (λ j. j < length os) x.order
    pub long : length x.order ≡ length os
    pub covers : (j : ℕ) → j < length os → mem j x.order ≡ true
    pub unresumed : x.resumed ≡ []

  -- The last task ends.
  pub last-Ended :
      (i : ℕ) (r : Handle) (x : Run E V F)
      → length runners ≡ length os
      → length os < 2 ^ 64
      → length x.waits ≡ length os
      → Inv (i ∷ []) x
      → get_elem? runners i ≡ some r
      → get_elem? x.waits i ≡ some (some 0)
      → (o : Completion E V) → get_elem? os i ≡ some o
      → Ended (go_on {F = F} os runners i r (some (some 0)) (some o) (popped os runners x))
  unfolding post_handle
  last-Ended i r x sized small wide v e w o at =
      let q = take-handles i r [] x v e in
      let (one, cont, has) = run-counts (i ∷ []) x v sized small in
      let st = run_all os x.order begun in
      let q' = post_handle st.cont (take x.st.sched).1 in
      let same =
        ap (when_all_runner i o) (ap (with_sched (take x.st.sched).1) v.state)
        ∙ runner-with_sched_resumes i o st (take x.st.sched).1 (omega arith) has
        ∙ ap (with_sched q') (sym (run_all-snoc os x.order i o begun at)) in
      record {
        queue = ground (arith, same, q, cont);
        fns = ground (arith, same, q, cont, v.fns);
        state =
            same
            ∙ ap (λ (p : Scheduler F). with_sched p (run_all os (x.order ++ i ∷ []) begun))
                (sym (ap (λ (a : WhenAllState E V F). a.sched) same));
        below = Each-append (λ (j : ℕ). j < length os) x.order (i ∷ []) v.below (v.inside.0, tt);
        long = ground (arith, v.long, length-append x.order (i ∷ []));
        covers =
            λ j lt. covers-last x.waits x.order i j (omega arith) (v.once j lt) (v.covers j lt);
        unresumed = v.unresumed;
      }
