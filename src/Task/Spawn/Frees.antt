-- ===== src/Task/Spawn/Frees.antt =====
-- A spawned task leaves nothing behind.
use async.Prelude.{◌≡◌, refl, ◌≢◌, false, Option, none, some, List, arith, set}
use async.Completion.{Completion, returns, throws, undefined}
use async.Scheduler.{Scheduler, Handle, post_handle}
use async.Task.{Frame, find_frame, await_resume, finish, destroy}
use async.Task.Await.{await_outcome}
use async.Task.Spawn.{DetachedTask, awaiting, destroyed, spawn_detached, resumed, resume}

module _ {E V : Type 0} where
  swallows :
      {h : Handle} {m' : List (Option (Frame E V))} (o : Completion E V)
      (m : List (Option (Frame E V)))
      → await_resume m (some h) ≡ o
      → destroy m (some h) ≡ some m'
      → o ≢ undefined
      → resumed (await_resume m (some h)) m (record { t = some h; phase = awaiting })
        ≡ some (none, m', record { t = some h; phase = destroyed })
  swallows (returns v) m gets frees ended = ground arith
  swallows (throws x) m gets frees ended = ground arith
  swallows undefined m gets frees ended = absurd (ended refl)

module _ {E V F : Type 0} where
  -- A task is spawned, and its coroutine has not run. The new coroutine is posted once; when it is
  -- resumed, the task's coroutine runs, with it as the continuation; when that ends with `o`, by a
  -- value or by an exception, the new coroutine is resumed, swallows the exception, and frees both
  -- frames: the frames of all other tasks are as before, no coroutine runs next, and another
  -- resumption would be a fault.
  pub spawn_frees :
      (m : List (Option (Frame E V))) (d h : Handle) (f : Frame E V) (o : Completion E V)
      (s : Scheduler F)
      → find_frame m h ≡ some f
      → f.finished ≡ false
      → f.exception ≡ none
      → o ≢ undefined
      → let (c, q) = spawn_detached d (some h) s in
        (m' m'' : List (Option (Frame E V))) × (c' c'' : DetachedTask) × (q
          ≡ post_handle (some d) s)
        × (resume d m c ≡ some (some h, m', c'))
        × (finish h o m' ≡ some (some d, m''))
        × (resume d m'' c' ≡ some (none, set m h none, c''))
        × (resume d (set m h none) c'' ≡ none)
  unfolding spawn_detached resume
  spawn_frees m d h f o s e fresh clean ended =
      let (m', m'', notready, suspends, ends, gets, _, frees) =
        await_outcome m h d f o e fresh clean ended in
      (
        m',
        m'',
        record { t = some h; phase = awaiting },
        record { t = some h; phase = destroyed },
        refl,
        ground (arith, notready, suspends),
        ends,
        swallows o m'' gets frees ended,
        refl,
      )
