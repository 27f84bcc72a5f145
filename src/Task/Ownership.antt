-- ===== src/Task/Ownership.antt =====
-- include/vix/async/core/task.hpp: the tasks of a program over one heap of frames, and what their
-- members do to it. A task variable is a position in a list; a position that holds no task reads as
-- an empty one.
pub mod Owners
pub mod Safety
use async.Prelude.{
  ℕ, zero, suc, ◌+◌, Option, none, some, List, [], ◌∷◌, ◌++◌, ◌==◌, if◌then◌else◌, length, set,
}
use async.Completion.{Completion}
use async.Scheduler.{Scheduler, Handle}
use async.Task.{Frame, Task, new_frame, find_frame, destroy, finish, start}

pub record Tasks (E V F : Type 0) : Type 0 where
  pub heap : List (Option (Frame E V))
  pub tasks : List Task
  pub sched : Scheduler F

-- A coroutine is called; a task is moved into a new one, or assigned to another one; a task goes out
-- of scope, is released, or is started; and the coroutine of a frame ends.
pub data Action (E V : Type 0) : Type 0 where
  calls : Action E V
  moves : ℕ → Action E V
  assigns : ℕ → ℕ → Action E V
  drops : ℕ → Action E V
  releases : ℕ → Action E V
  starts : ℕ → Action E V
  ends : Handle → Completion E V → Action E V

abbrev pub get_task : List Task → ℕ → Task
get_task [] i = none
get_task (t ∷ ts) zero = t
get_task (t ∷ ts) (suc i) = get_task ts i

module _ {E V F : Type 0} where
  -- `destroy()` of task `i`, which is empty afterwards.
  abbrev pub destroy_at : ℕ → Tasks E V F → Option (Tasks E V F)
  destroy_at i s = elim (destroy s.heap (get_task s.tasks i)) [
    | none ↦ none
    | some m ↦ some (record s { heap = m; tasks = set s.tasks i none })
  ]

  -- `h_ = other.h_; other.h_ = {}`
  abbrev pub take_over : ℕ → ℕ → Tasks E V F → Tasks E V F
  take_over i j s = record s { tasks = set (set s.tasks j none) i (get_task s.tasks j) }

  abbrev pub start_at : ℕ → Tasks E V F → Option (Tasks E V F)
  start_at i s = elim (start s.heap (get_task s.tasks i) s.sched) [
    | none ↦ none
    | some r ↦ some (record s { heap = r.0; sched = r.1; tasks = set s.tasks i none })
  ]

  -- Only a coroutine whose frame exists can end.
  abbrev pub end_at : Handle → Completion E V → Tasks E V F → Tasks E V F
  end_at h o s = elim (finish h o s.heap) [ none ↦ s | some r ↦ record s { heap = r.1 } ]

  unfoldable pub step : Action E V → Tasks E V F → Option (Tasks E V F)
  step calls s = some (record s {
    heap = s.heap ++ some new_frame ∷ [];
    tasks = s.tasks ++ some (length s.heap) ∷ [];
  })
  step (moves i) s = some (record s { tasks = set s.tasks i none ++ get_task s.tasks i ∷ [] })
  step (assigns i j) s =
      if i == j
      then some s
      else elim (destroy_at i s) [ none ↦ none | some t ↦ some (take_over i j t) ]
  step (drops i) s = destroy_at i s
  step (releases i) s = some (record s { tasks = set s.tasks i none })
  step (starts i) s = start_at i s
  step (ends h o) s = some (end_at h o s)

  unfoldable pub steps : List (Action E V) → Tasks E V F → Option (Tasks E V F)
  steps [] s = some s
  steps (a ∷ as') s = elim (step a s) [ none ↦ none | some t ↦ steps as' t ]
