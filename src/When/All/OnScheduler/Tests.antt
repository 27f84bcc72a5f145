-- ===== src/When/All/OnScheduler/Tests.antt =====
-- Three tasks, the first of which suspends twice, and two of which throw.
use async.Prelude.{ℕ, ◌≡◌, refl, none, some, List, [], ◌∷◌, arith}
use async.Completion.{Completion, returns, throws, thrown}
use async.When.All.{await_resume}
use async.When.All.Slots.{IsOrder, first_thrown, values}
use async.When.All.OnScheduler.{loop, start}
use async.When.All.OnScheduler.Whole.{when_all_on_scheduler}

abbrev pack : List (Completion ℕ ℕ)
pack = throws (thrown 7) ∷ returns 20 ∷ throws (thrown 9) ∷ []

abbrev runners : List ℕ
runners = 1 ∷ 2 ∷ 3 ∷ []

abbrev delays : List ℕ
delays = 2 ∷ 0 ∷ 1 ∷ []

when_all_on_scheduler_example :
    let x = loop pack runners 8 (start {F = ℕ} runners 50 delays) in
    IsOrder 3 x.order
    × (x.resumed ≡ 50 ∷ [])
    × (x.st.sched.handle_q ≡ [])
    × (await_resume x.st
        ≡ elim (first_thrown pack x.order) [ none ↦ returns (values pack) | some e ↦ throws e ])
when_all_on_scheduler_example =
    when_all_on_scheduler ℕ pack runners 50 delays 8 refl refl (omega arith) (omega arith)
      (tt, (tt, (tt, tt))) (refl, (refl, (refl, tt))) refl (omega arith)

-- The third task is the first that throws.
ended_order : (loop pack runners 8 (start {F = ℕ} runners 50 delays)).order ≡ 1 ∷ 2 ∷ 0 ∷ []
unfolding loop start
ended_order = refl
