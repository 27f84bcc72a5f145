-- ===== src/Task/Void.antt =====
-- include/vix/async/core/task.hpp: the specialisations `promise_value<void>` and `task<void>`, which
-- repeat the code of the templates. Their promise has no value.
pub mod Agrees
use async.Prelude.{
  ℕ, zero, suc, ◌≡◌, refl, sym, ap, ◌∙◌, inl, inr, Bool, true, false, Option, none, some, List, [],
  ◌∷◌, map, arith, get_elem?, set, if◌then◌else◌, Option-cases,
}
use async.Completion.{Completion, returns, throws, undefined, Exception}
use async.Scheduler.{Scheduler, Handle, post_handle}
use async.Task.{
  Frame, Task, find_frame, put_frame, destroy_frame, await_suspend, await_resume, store_end,
  final_suspend, finish, destroy, start,
}

-- `promise_value<void>` with `promise_common`.
pub record VoidFrame (E : Type 0) : Type 0 where
  pub continuation : Option Handle
  pub exception : Option (Exception E)
  pub detached : Bool
  pub finished : Bool

module _ {E : Type 0} where
  abbrev pub find_void : List (Option (VoidFrame E)) → Handle → Option (VoidFrame E)
  find_void m h = elim (get_elem? m h) [ none ↦ none | some f ↦ f ]

  -- `task_awaiter::await_suspend` and `await_resume` at `promise_value<void>`.
  unfoldable pub await_suspend_void :
      List (Option (VoidFrame E))
      → Task
      → Option Handle
      → Option (Handle × List (Option (VoidFrame E)))
  await_suspend_void m none awaiting = none
  await_suspend_void m (some h) awaiting = elim (find_void m h) [
    | none ↦ none
    | some f ↦ some (h, set m h (some (record f { continuation = awaiting })))
  ]

  abbrev pub result_void : Option (VoidFrame E) → Completion E (Unit {0})
  result_void none = undefined
  result_void (some f) = elim f.exception [ some x ↦ throws x | none ↦ returns tt ]

  unfoldable pub await_resume_void : List (Option (VoidFrame E)) → Task → Completion E (Unit {0})
  await_resume_void m none = undefined
  await_resume_void m (some h) = result_void (find_void m h)

  -- `return_void` and `unhandled_exception`, and the final suspend point.
  abbrev pub store_end_void : Completion E (Unit {0}) → VoidFrame E → VoidFrame E
  store_end_void (throws x) f = record f { exception = some x; finished = true }
  store_end_void _ f = record f { finished = true }

  abbrev pub final_suspend_void :
      Handle
      → VoidFrame E
      → List (Option (VoidFrame E))
      → Option Handle × List (Option (VoidFrame E))
  final_suspend_void h f m = elim f.continuation [
    | some c ↦ (some c, m)
    | none ↦ (none, if f.detached then set m h none else m)
  ]

  unfoldable pub finish_void :
      Handle
      → Completion E (Unit {0})
      → List (Option (VoidFrame E))
      → Option (Option Handle × List (Option (VoidFrame E)))
  finish_void h o m = elim (find_void m h) [
    | none ↦ none
    | some f ↦
        some (final_suspend_void h (store_end_void o f) (set m h (some (store_end_void o f))))
  ]

  -- `task<void>::destroy` and `task<void>::start`.
  unfoldable pub destroy_void :
      List (Option (VoidFrame E)) → Task → Option (List (Option (VoidFrame E)))
  destroy_void m none = some m
  destroy_void m (some h) = elim (find_void m h) [ none ↦ none | some f ↦ some (set m h none) ]

  unfoldable pub start_void :
      {F : Type 0}
      → List (Option (VoidFrame E))
      → Task
      → Scheduler F
      → Option (List (Option (VoidFrame E)) × Scheduler F)
  unfolding post_handle
  start_void m none s = some (m, s)
  start_void m (some h) s = elim (find_void m h) [
    | none ↦ none
    | some f ↦ some (set m h (some (record f { detached = true })), post_handle (some h) s)
  ]

  -- A frame of the template at `Unit`, without its value.
  abbrev pub forget : Frame E (Unit {0}) → VoidFrame E
  forget f = record {
    continuation = f.continuation;
    exception = f.exception;
    detached = f.detached;
    finished = f.finished;
  }

  abbrev pub forget_cell : Option (Frame E (Unit {0})) → Option (VoidFrame E)
  forget_cell none = none
  forget_cell (some f) = some (forget f)

  abbrev pub forget_heap : List (Option (Frame E (Unit {0}))) → List (Option (VoidFrame E))
  forget_heap m = map forget_cell m
