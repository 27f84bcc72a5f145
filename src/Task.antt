-- ===== src/Task.antt =====
-- include/vix/async/core/task.hpp: coroutine frames on a heap, and the tasks that own them. A frame
-- is known by its position; a destroyed one leaves `none` behind. A function gives `none` where the
-- code would touch a destroyed frame or a null handle. `task<void>` has values of type `Unit`.
pub mod Await
pub mod Ownership
pub mod Spawn
pub mod Void
mod Tests
use async.Prelude.{Bool, true, false, Option, none, some, List, if◌then◌else◌, get_elem?, set}
use async.Completion.{Completion, returns, throws, undefined, Exception}
use async.Scheduler.{Scheduler, Handle, post_handle}

-- `promise_value<T>` with `promise_common`; `finished` is `done()` of the handle.
pub record Frame (E V : Type 0) : Type 0 where
  pub continuation : Option Handle
  pub exception : Option (Exception E)
  pub detached : Bool
  pub value : Option V
  pub finished : Bool

-- A `task<T>` is its handle.
abbrev pub Task : Type 0
Task = Option Handle

module _ {E V : Type 0} where
  abbrev pub new_frame : Frame E V
  new_frame = record {
    continuation = none;
    exception = none;
    detached = false;
    value = none;
    finished = false;
  }

  -- The heap; `find_frame` is `none` for a destroyed frame.
  abbrev pub find_frame : List (Option (Frame E V)) → Handle → Option (Frame E V)
  find_frame m h = elim (get_elem? m h) [ none ↦ none | some f ↦ f ]

  abbrev pub put_frame : List (Option (Frame E V)) → Handle → Frame E V → List (Option (Frame E V))
  put_frame m h f = set m h (some f)

  -- `coroutine_handle::destroy`: a second one on the same frame is a fault.
  unfoldable pub destroy_frame :
      List (Option (Frame E V)) → Handle → Option (List (Option (Frame E V)))
  destroy_frame m h = elim (find_frame m h) [ none ↦ none | some f ↦ some (set m h none) ]

  -- `task_awaiter::await_ready`
  unfoldable pub await_ready : List (Option (Frame E V)) → Task → Option Bool
  await_ready m none = some true
  await_ready m (some h) = elim (find_frame m h) [ none ↦ none | some f ↦ some f.finished ]

  -- `task_awaiter::await_suspend`: the handle that is resumed next, and the heap.
  unfoldable pub await_suspend :
      List (Option (Frame E V)) → Task → Option Handle → Option (Handle × List (Option (Frame E V)))
  await_suspend m none awaiting = none
  await_suspend m (some h) awaiting = elim (find_frame m h) [
    | none ↦ none
    | some f ↦ some (h, put_frame m h (record f { continuation = awaiting }))
  ]

  abbrev pub value_of : Option V → Completion E V
  value_of none = undefined
  value_of (some v) = returns v

  abbrev pub result_of : Option (Frame E V) → Completion E V
  result_of none = undefined
  result_of (some f) = elim f.exception [ some x ↦ throws x | none ↦ value_of f.value ]

  -- `task_awaiter::await_resume`
  unfoldable pub await_resume : List (Option (Frame E V)) → Task → Completion E V
  await_resume m none = undefined
  await_resume m (some h) = result_of (find_frame m h)

  -- `return_value` and `unhandled_exception`, and the final suspend point that is reached then.
  abbrev pub store_end : Completion E V → Frame E V → Frame E V
  store_end (returns v) f = record f { value = some v; finished = true }
  store_end (throws x) f = record f { exception = some x; finished = true }
  store_end undefined f = record f { finished = true }

  -- `final_awaiter::await_suspend`: the coroutine that is resumed next, `none` for the no-op one.
  abbrev pub final_suspend :
      Handle → Frame E V → List (Option (Frame E V)) → Option Handle × List (Option (Frame E V))
  final_suspend h f m = elim f.continuation [
    | some c ↦ (some c, m)
    | none ↦ (none, if f.detached then set m h none else m)
  ]

  -- The coroutine of frame `h` ends with `o`.
  unfoldable pub finish :
      Handle
      → Completion E V
      → List (Option (Frame E V))
      → Option (Option Handle × List (Option (Frame E V)))
  finish h o m = elim (find_frame m h) [
    | none ↦ none
    | some f ↦ some (final_suspend h (store_end o f) (put_frame m h (store_end o f)))
  ]

  -- `~task`, and `destroy`: an empty task owns nothing.
  unfoldable pub destroy : List (Option (Frame E V)) → Task → Option (List (Option (Frame E V)))
  unfolding destroy_frame
  destroy m none = some m
  destroy m (some h) = destroy_frame m h

  -- `start`: the frame is marked as detached, its handle is posted, and the task is empty.
  unfoldable pub start :
      {F : Type 0}
      → List (Option (Frame E V))
      → Task
      → Scheduler F
      → Option (List (Option (Frame E V)) × Scheduler F)
  unfolding post_handle
  start m none s = some (m, s)
  start m (some h) s = elim (find_frame m h) [
    | none ↦ none
    | some f ↦ some (put_frame m h (record f { detached = true }), post_handle (some h) s)
  ]
