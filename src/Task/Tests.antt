-- ===== src/Task/Tests.antt =====
-- A task that returns a number, and a program with two tasks.
use async.Prelude.{ℕ, ◌≡◌, ◌≢◌, refl, true, set, false, none, some, Option, List, [], ◌∷◌}
use async.Completion.{Completion, throws, undefined, thrown}
use async.Scheduler.{Scheduler, empty, post_handle}
use async.Task.Void.{
  await_suspend_void, result_void, finish_void, destroy_void, start_void, forget, forget_heap,
}
use async.Task.Void.Agrees.{through, forget_found, started, void_agrees}
use async.Task.{
  start, result_of, store_end, Frame, new_frame, await_ready, await_suspend, await_resume, destroy,
  finish,
}
use async.Task.Await.{await_outcome}
use async.Task.Spawn.{DetachedTask, spawn_detached, resume}
use async.Task.Spawn.Frees.{spawn_frees}
use async.Task.Ownership.{Tasks, Action, calls, assigns, drops, starts, ends, steps}
use async.Task.Ownership.Owners.{OwnedIn}
use async.Task.Ownership.Safety.{no_tasks, tasks_safe}

abbrev frames : List (Option (Frame ℕ ℕ))
frames = none ∷ some new_frame ∷ []

abbrev queue : Scheduler ℕ
queue = empty

abbrev last : Completion ℕ ℕ
last = throws (thrown 3)

ended : last ≢ undefined
ended e = cc

await_outcome_example :
    (m' m'' : List (Option (Frame ℕ ℕ))) × (await_ready frames (some 1) ≡ some false)
    × (await_suspend frames (some 1) (some 9) ≡ some (1, m'))
    × (finish 1 last m' ≡ some (some 9, m''))
    × (await_resume m'' (some 1) ≡ last)
    × (await_ready m'' (some 1) ≡ some true)
    × (destroy m'' (some 1) ≡ some (set frames 1 none))
await_outcome_example = await_outcome frames 1 9 new_frame last refl refl refl ended

-- Two tasks; the second is moved over the first, the result is started, and its coroutine ends.
abbrev program : List (Action ℕ ℕ)
program = calls ∷ calls ∷ assigns 0 1 ∷ starts 0 ∷ ends 1 last ∷ drops 0 ∷ drops 1 ∷ []

tasks_safe_example :
    (t : Tasks ℕ ℕ ℕ) × (steps program no_tasks ≡ some t) × ((p : ℕ) → OwnedIn t.heap t.tasks p)
tasks_safe_example = tasks_safe program

spawn_frees_example :
    let (c, q) = spawn_detached 9 (some 1) queue in
    (m' m'' : List (Option (Frame ℕ ℕ))) × (c' c'' : DetachedTask) × (q
      ≡ post_handle (some 9) queue)
    × (resume 9 frames c ≡ some (some 1, m', c'))
    × (finish 1 last m' ≡ some (some 9, m''))
    × (resume 9 m'' c' ≡ some (none, set frames 1 none, c''))
    × (resume 9 (set frames 1 none) c'' ≡ none)
spawn_frees_example = spawn_frees frames 9 1 new_frame last queue refl refl refl ended

-- Two frames of `task<void>`, the first with a coroutine that awaits it.
abbrev voids : List (Option (Frame ℕ (Unit {0})))
voids = some (record new_frame { continuation = some 1 }) ∷ some new_frame ∷ []

abbrev failed : Completion ℕ (Unit {0})
failed = throws (thrown 4)

failed-ends : failed ≢ undefined
failed-ends e = cc

void_agrees_example :
    (finish_void 0 failed (forget_heap voids) ≡ through (finish 0 failed voids))
    × (await_suspend_void (forget_heap voids) (some 0) (some 1)
        ≡ through (await_suspend voids (some 0) (some 1)))
    × (destroy_void (forget_heap voids) (some 0) ≡ forget_found (destroy voids (some 0)))
    × (start_void (forget_heap voids) (some 0) queue ≡ started (start voids (some 0) queue))
    × (result_void (some (forget (store_end failed new_frame)))
        ≡ result_of (some (store_end failed new_frame)))
void_agrees_example = void_agrees voids 0 (some 0) (some 1) queue failed new_frame refl failed-ends
