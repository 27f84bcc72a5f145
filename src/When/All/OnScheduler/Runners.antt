-- ===== src/When/All/OnScheduler/Runners.antt =====
-- What a runner does to the state of its pack, apart from the queue.
use async.Prelude.{
  ℕ, ◌+◌, ◌^◌, ◌≤◌, ◌<◌, ◌≡◌, refl, ◌≢◌, inl, inr, true, some, List, [], ◌∷◌, ◌++◌, arith,
  Option-cases, length, get_elem?, get_elem?-some, Each,
}
use async.Completion.{Completion, returns, throws, undefined}
use async.Scheduler.{Scheduler, post_handle}
use async.When.All.{WhenAllState, when_all_runner, run_all}
use async.When.All.Results.{record_end-same}

-- The runner of task `i` does not look at the queue.
module _ {E V F : Type 0} where
  abbrev pub with_sched : Scheduler F → WhenAllState E V F → WhenAllState E V F
  with_sched q st = record st { sched = q }

  pub runner-with_sched_waits :
      (i : ℕ) (o : Completion E V) (st : WhenAllState E V F) (q : Scheduler F)
      → st.remaining ≢ 1
      → when_all_runner i o (with_sched q st) ≡ with_sched q (when_all_runner i o st)
  unfolding when_all_runner
  runner-with_sched_waits i (returns v) st q n = ground arith
  runner-with_sched_waits i (throws x) st q n = ground arith
  runner-with_sched_waits i undefined st q n = ground arith

  pub runner-with_sched_resumes :
      (i : ℕ) (o : Completion E V) (st : WhenAllState E V F) (q : Scheduler F)
      → st.remaining ≡ 1
      → st.has_sched ≡ true
      → when_all_runner i o (with_sched q st)
        ≡ with_sched (post_handle st.cont q) (when_all_runner i o st)
  unfolding when_all_runner
  runner-with_sched_resumes i (returns v) st q n h = ground arith
  runner-with_sched_resumes i (throws x) st q n h = ground arith
  runner-with_sched_resumes i undefined st q n h = ground arith

  pub run_all-snoc :
      (os : List (Completion E V)) (order : List ℕ) (i : ℕ) (o : Completion E V)
      (st : WhenAllState E V F)
      → get_elem? os i ≡ some o
      → run_all os (order ++ i ∷ []) st ≡ when_all_runner i o (run_all os order st)
  unfolding run_all
  run_all-snoc os [] i o st e = rw (e, run_all) refl
  run_all-snoc os (j ∷ order) i o st e = elim (Option-cases (get_elem? os j)) [
    | inl n ↦ rw (n, run_all) (run_all-snoc os order i o st e)
    | inr (p, n) ↦ rw (n, run_all) (run_all-snoc os order i o (when_all_runner j p st) e)
  ]

  -- What stays, and what is left to count.
  runner-counts :
      (i : ℕ) (o : Completion E V) (st : WhenAllState E V F)
      → 0 < st.remaining
      → st.remaining < 2 ^ 64
      → let t = when_all_runner i o st in
        (t.remaining + 1 ≡ st.remaining) × (t.cont ≡ st.cont) × (t.has_sched ≡ st.has_sched)
  unfolding when_all_runner
  runner-counts i o st pos small = ground (arith, record_end-same i o st)

  pub run_all-counts :
      (os : List (Completion E V)) (order : List ℕ) (st : WhenAllState E V F)
      → Each (λ i. i < length os) order
      → length order ≤ st.remaining
      → st.remaining < 2 ^ 64
      → let t = run_all os order st in
        (t.remaining + length order ≡ st.remaining)
        × (t.cont ≡ st.cont)
        × (t.has_sched ≡ st.has_sched)
  unfolding run_all
  run_all-counts os [] st b le small = (omega arith, refl, refl)
  run_all-counts os (i ∷ order) st b le small =
      let (o, e) = get_elem?-some os i b.0 in
      let (r, c, h) = runner-counts i o st (omega arith) small in
      rw (e, run_all) (ground (arith, run_all-counts os order (when_all_runner i o st) b.1))
