-- ===== src/Task/Spawn.antt =====
-- include/vix/async/core/spawn.hpp: a coroutine that nobody owns, which awaits a task and then frees
-- itself, and the task with it. `none` is a fault, as in Task.antt.
pub mod Frees
use async.Prelude.{
  ℕ, zero, suc, ◌+◌, ◌-◌, ◌*◌, ◌%◌, ◌^◌, ◌≤◌, ◌<◌, ◌≡◌, refl, sym, ap, ◌∙◌, ◌≢◌, ◌↔◌, ◌⊎◌, inl, inr,
  Bool, true, false, ◌&&◌, ◌||◌, not, Option, none, some, List, [], ◌∷◌, ◌++◌, map, append-nil,
  append_assoc, arith, dec_lt, ℕ_discrete, ltb, leb, ◌==◌, if◌then◌else◌, ltb→lt, lt→ltb, leb→le,
  ==_iff, tests, Bool-cases, Option-cases, length, get_elem?, set, replicate, is_empty, is_some,
  length-append, length-set, get_elem?-some, Each, Each-append,
}
use async.Completion.{Completion, returns, throws, undefined}
use async.Scheduler.{Scheduler, Handle, post_handle}
use async.Task.{Frame, Task, await_ready, await_suspend, await_resume, destroy}

-- Where the coroutine of `make_detached` stands: at its initial suspend point, in `co_await t`, or
-- destroyed by its final awaiter.
pub data Phase : Type 0 where
  initial awaiting destroyed : Phase

-- Its frame: the parameter `t`, and where it stands.
pub record DetachedTask : Type 0 where
  pub t : Task
  pub phase : Phase

abbrev pub make_detached : Task → DetachedTask
make_detached t = record { t = t; phase = initial }

-- `d` is the handle of the new frame.
unfoldable pub spawn_detached :
    {F : Type 0} → Handle → Task → Scheduler F → DetachedTask × Scheduler F
unfolding post_handle
spawn_detached d t s = (make_detached t, post_handle (some d) s)

module _ {E V : Type 0} where
  -- `handle.destroy()` in `final_awaiter`: the frame goes, and with it the parameter.
  abbrev pub final_suspend :
      List (Option (Frame E V))
      → DetachedTask
      → Option (Option Handle × List (Option (Frame E V)) × DetachedTask)
  final_suspend m f = elim (destroy m f.t) [
    | none ↦ none
    | some m' ↦ some (none, m', record f { phase = destroyed })
  ]

  -- From `await_resume` on: `unhandled_exception` swallows what it throws.
  abbrev pub resumed :
      Completion E V
      → List (Option (Frame E V))
      → DetachedTask
      → Option (Option Handle × List (Option (Frame E V)) × DetachedTask)
  resumed (returns v) m f = final_suspend m f
  resumed (throws x) m f = final_suspend m f
  resumed undefined m f = none

  abbrev pub awaits :
      Handle
      → List (Option (Frame E V))
      → DetachedTask
      → Option (Option Handle × List (Option (Frame E V)) × DetachedTask)
  awaits d m f = elim (await_suspend m f.t (some d)) [
    | none ↦ none
    | some r ↦ some (some r.0, r.1, record f { phase = awaiting })
  ]

  abbrev pub resume_at :
      Phase
      → Handle
      → List (Option (Frame E V))
      → DetachedTask
      → Option (Option Handle × List (Option (Frame E V)) × DetachedTask)
  resume_at initial d m f = elim (await_ready m f.t) [
    | none ↦ none
    | some true ↦ resumed (await_resume m f.t) m f
    | some false ↦ awaits d m f
  ]
  resume_at awaiting d m f = resumed (await_resume m f.t) m f
  resume_at destroyed d m f = none

  -- The coroutine is resumed: which coroutine runs next, the frames of the tasks, and its own frame.
  unfoldable pub resume :
      Handle
      → List (Option (Frame E V))
      → DetachedTask
      → Option (Option Handle × List (Option (Frame E V)) × DetachedTask)
  unfolding await_ready await_suspend await_resume destroy
  resume d m f = resume_at f.phase d m f
