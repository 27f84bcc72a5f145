-- ===== src/When/Tests.antt =====
-- Packs of three tasks.
use async.Prelude.{ℕ, zero, suc, ◌<◌, ◌≡◌, refl, true, some, List, [], ◌∷◌, arith}
use async.Completion.{Completion, returns, throws, thrown}
use async.Scheduler.{Scheduler, empty}
use async.When.All.{run_all, post_all}
use async.When.All
use async.When.All.Slots.{mem, IsOrder}
use async.When.All.Outcome.{when_all_outcome}
use async.When.Any.{run_any, when_any_end}
use async.When.Any
use async.When.Any.Race.{when_any_throws_first}

abbrev Ends3 : Type 0
Ends3 = List (Completion ℕ ℕ)

abbrev good : Ends3
good = returns 10 ∷ returns 20 ∷ returns 30 ∷ []

abbrev bad : Ends3
bad = returns 10 ∷ throws (thrown 8) ∷ throws (thrown 9) ∷ []

abbrev none_queued : Scheduler ℕ
none_queued = empty

abbrev runners : List ℕ
runners = 1 ∷ 2 ∷ 3 ∷ []

abbrev last_first : List ℕ
last_first = 2 ∷ 0 ∷ 1 ∷ []

last_first-covers : (i : ℕ) → i < 3 → mem i last_first ≡ true
last_first-covers zero lt = refl
last_first-covers (suc zero) lt = refl
last_first-covers (suc (suc zero)) lt = refl
last_first-covers (suc (suc (suc i))) lt = absurd (omega arith)

last_first-IsOrder : IsOrder 3 last_first
last_first-IsOrder = record { long = refl; below = omega arith; covers = last_first-covers }

when_all_outcome_example :
    All.await_resume (run_all good last_first (All.await_suspend none_queued (some 50) runners))
    ≡ returns (10 ∷ 20 ∷ 30 ∷ [])
when_all_outcome_example =
    when_all_outcome good last_first none_queued (some 50) runners refl (tt, (tt, (tt, tt)))
      last_first-IsOrder

-- Task 0 wins with a value, and task 2 fails before the coroutine goes on.
when_any_throws_first_example :
    when_any_end (run_any bad (0 ∷ 2 ∷ []) (Any.await_suspend none_queued (some 50) runners))
    ≡ throws (thrown 9)
when_any_throws_first_example =
    when_any_throws_first bad (0 ∷ 2 ∷ []) none_queued (some 50) runners (thrown 9) refl
