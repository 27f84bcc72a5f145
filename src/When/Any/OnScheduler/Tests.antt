-- ===== src/When/Any/OnScheduler/Tests.antt =====
-- Three tasks, with the handles 1, 2 and 3, and the awaiting coroutine 9.
use async.Prelude.{ℕ, ◌≡◌, refl, some, List, [], ◌∷◌, arith}
use async.Completion.{Completion, returns, undefined}
use async.When.Any.{when_any_end}
use async.When.Any.OnScheduler.{Run, race, start}
use async.When.Any.OnScheduler.Whole.{when_any_on_scheduler}

abbrev ends : List (Completion ℕ ℕ)
ends = returns 10 ∷ returns 20 ∷ returns 30 ∷ []

-- The last task suspends twice.
when_any_on_scheduler_example :
    (y : Run ℕ ℕ ℕ) × (race ends (1 ∷ 2 ∷ 3 ∷ []) 4 (start (1 ∷ 2 ∷ 3 ∷ []) 9 (0 ∷ 0 ∷ 2 ∷ []))
      ≡ some y)
    × (y.order ≡ 0 ∷ 1 ∷ [])
    × (when_any_end y.st ≡ undefined)
when_any_on_scheduler_example =
    when_any_on_scheduler ℕ ends 1 (2 ∷ 3 ∷ []) 9 (0 ∷ 2 ∷ []) 4 2 1 refl refl
      (refl, (refl, (refl, tt))) refl (omega arith) refl refl
