-- ===== src/ThreadPool/Awaitable.antt =====
-- include/vix/async/core/thread_pool.hpp: the awaitable of the coroutine `submit`, with
-- `detail::result_store`. The callable of the user is given by what it ends with.
use async.Prelude.{◌≡◌, ◌⊎◌, inl, inr, Option, none, some, arith, if◌then◌else◌}
use async.Completion.{Completion, returns, throws, undefined, Exception, system_error}
use async.Cancel.{States, CancelToken, is_cancelled, cancelled_ec}
use async.Scheduler.{Scheduler, Handle, post_handle}

-- `store` is `result_store<R>`; `fn` ends by a value, or by an exception.
pub record Awaitable (E R : Type 0) : Type 0 where
  pub ct : CancelToken
  pub fn : Exception E ⊎ R
  pub store : Option R
  pub ex : Option (Exception E)

module _ {E R : Type 0} where
  abbrev pub new_awaitable : CancelToken → Exception E ⊎ R → Awaitable E R
  new_awaitable ct fn = record { ct = ct; fn = fn; store = none; ex = none }

  abbrev pub call : Exception E ⊎ R → Awaitable E R → Awaitable E R
  call (inl x) w = record w { ex = some x }
  call (inr r) w = record w { store = some r }

  -- The `try` block of the enqueued lambda, with its handler.
  abbrev pub execute : States → Awaitable E R → Awaitable E R
  execute m w =
      if is_cancelled m w.ct
      then record w { ex = some (system_error cancelled_ec) }
      else call w.fn w

  -- The lambda that `await_suspend` enqueues: it ends by posting the coroutine, in every case.
  unfoldable pub run_job :
      {F : Type 0}
      → States
      → Option Handle
      → Awaitable E R
      → Scheduler F
      → Awaitable E R × Scheduler F
  unfolding is_cancelled cancelled_ec post_handle
  run_job m h w s = (execute m w, post_handle h s)

  abbrev pub take : Option R → Completion E R
  take none = undefined
  take (some r) = returns r

  unfoldable pub await_resume : Awaitable E R → Completion E R
  await_resume w = elim w.ex [ some x ↦ throws x | none ↦ take w.store ]

  abbrev pub ended : Exception E ⊎ R → Completion E R
  ended (inl x) = throws x
  ended (inr r) = returns r

  -- The job posts the coroutine once, and the coroutine then gets what the callable ended with, its
  -- value or its exception; or the cancellation, if the token was cancelled when a worker began with
  -- the job. It never reads an empty store.
  pub submit_outcome :
      {F : Type 0} (m : States) (ct : CancelToken) (fn : Exception E ⊎ R) (h : Option Handle)
      (s : Scheduler F)
      → let (w, t) = run_job m h (new_awaitable ct fn) s in
        (t ≡ post_handle h s)
        × (await_resume w
            ≡ (if is_cancelled m ct then throws (system_error cancelled_ec) else ended fn))
  unfolding run_job await_resume
  submit_outcome m ct fn h s = ground arith
