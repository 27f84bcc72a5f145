-- ===== src/When/All/Results.antt =====
-- What `when_all` gives, for every order in which the tasks end.
use async.Prelude.{
  ℕ, ◌+◌, ◌^◌, ◌≤◌, ◌<◌, ◌≡◌, refl, inl, inr, Option, List, [], ◌∷◌, arith, ◌==◌, if◌then◌else◌,
  Bool-cases, length, get_elem?-some, Each,
}
use async.Completion.{Completion, returns, throws, undefined}
use async.Scheduler.{Scheduler, Handle, post_handle}
use async.When.{resume_cont}
use async.When.All.{WhenAllState, record_end, when_all_runner, run_all, post_all, await_suspend}

module _ {E V F : Type 0} where
  pub record_end-same :
      (i : ℕ) (o : Completion E V) (st : WhenAllState E V F)
      → ((record_end i o st).remaining ≡ st.remaining)
        × ((record_end i o st).sched ≡ st.sched)
        × ((record_end i o st).inline ≡ st.inline)
        × ((record_end i o st).cont ≡ st.cont)
        × ((record_end i o st).has_sched ≡ st.has_sched)
  record_end-same i (returns v) st = (refl, refl, refl, refl, refl)
  record_end-same i (throws x) st = (refl, refl, refl, refl, refl)
  record_end-same i undefined st = (refl, refl, refl, refl, refl)

  -- What a runner does to the rest of the state while others are left.
  pub runner-waits :
      (i : ℕ) (o : Completion E V) (st : WhenAllState E V F)
      → 1 < st.remaining
      → st.remaining < 2 ^ 64
      → let t = when_all_runner i o st in
        (t.remaining + 1 ≡ st.remaining)
        × (t.sched ≡ st.sched)
        × (t.inline ≡ st.inline)
        × (t.cont ≡ st.cont)
        × (t.has_sched ≡ st.has_sched)
  unfolding when_all_runner
  runner-waits i o st lt small = ground (arith, record_end-same i o st)

  pub runner-resumes :
      (i : ℕ) (o : Completion E V) (st : WhenAllState E V F)
      → st.remaining ≡ 1
      → let t = when_all_runner i o st in
        let r = resume_cont st.has_sched st.cont (st.sched, st.inline) in
        (t.sched ≡ r.0) × (t.inline ≡ r.1)
  unfolding when_all_runner
  runner-resumes i o st e = ground (arith, record_end-same i o st)

  run_all-waits :
      (os : List (Completion E V)) (order : List ℕ) (st : WhenAllState E V F)
      → Each (λ i. i < length os) order
      → length order < st.remaining
      → st.remaining < 2 ^ 64
      → let t = run_all os order st in (t.sched ≡ st.sched) × (t.inline ≡ st.inline)
  unfolding run_all
  run_all-waits os [] st b lt small = (refl, refl)
  run_all-waits os (i ∷ order) st b lt small =
      let (o, e) = get_elem?-some os i b.0 in
      let w = runner-waits i o st (omega arith) small in
      rw (e, run_all) (ground (arith, w, run_all-waits os order (when_all_runner i o st) b.1))

  run_all-resumes :
      (os : List (Completion E V)) (order : List ℕ) (st : WhenAllState E V F)
      → Each (λ i. i < length os) order
      → length order ≡ st.remaining
      → 0 < st.remaining
      → st.remaining < 2 ^ 64
      → let t = run_all os order st in
        let r = resume_cont st.has_sched st.cont (st.sched, st.inline) in
        (t.sched ≡ r.0) × (t.inline ≡ r.1)
  unfolding run_all
  run_all-resumes os [] st b e pos small = absurd (omega arith)
  run_all-resumes os (i ∷ []) st b e pos small =
      let (o, f) = get_elem?-some os i b.0 in rw (f, run_all) (runner-resumes i o st (omega arith))
  run_all-resumes os (i ∷ j ∷ order) st b e pos small =
      let (o, f) = get_elem?-some os i b.0 in
      let w = runner-waits i o st (omega arith) small in
      rw (f, run_all)
        (ground (arith, w, run_all-resumes os (j ∷ order) (when_all_runner i o st) b.1))

  -- The awaiting coroutine is posted to the scheduler when all tasks of the pack have ended, in
  -- whatever order, and not before: after the tasks of `order`, which are fewer than the pack or all
  -- of it, the scheduler holds the posts of the runners, and behind them the awaiting coroutine in
  -- the second case only. The pack is not empty.
  pub when_all_resumes_last :
      (os : List (Completion E V)) (order : List ℕ) (s : Scheduler F) (h : Option Handle)
      (runners : List Handle)
      → length runners ≡ length os
      → 0 < length os
      → length os < 2 ^ 64
      → Each (λ i. i < length os) order
      → length order ≤ length os
      → (run_all os order (await_suspend s h runners)).sched ≡ (
          if length order == length os
          then post_handle h (post_all runners s)
          else post_all runners s)
  unfolding await_suspend
  when_all_resumes_last os order s h runners e pos small b le =
      elim (Bool-cases (length order == length os)) [
        | inl all ↦
            rw all
              (run_all-resumes os order (await_suspend s h runners) b (ground arith) (ground arith)
                (ground arith)).0
        | inr part ↦
            rw part
              (run_all-waits os order (await_suspend s h runners) b (ground arith) (ground arith)).0
      ]
