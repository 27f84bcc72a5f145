-- ===== src/Net/Await.antt =====
-- src/net/asio_await.hpp: the awaitable behind every network operation. What asio does is an
-- argument: an operation fails to start with an exception, or it completes with an error code and a
-- value.
use async.Prelude.{
  ◌≡◌, ◌⊎◌, Bool, true, false, not, Option, none, some, List, [], ◌∷◌, ◌++◌, arith, if◌then◌else◌,
}
use async.Error.{ErrorCode, no_error, is_error}
use async.Completion.{Completion, returns, throws, undefined, Exception, system_error}
use async.Cancel.{States, CancelToken, is_cancelled, cancelled_ec, Action, acts}
use async.Cancel.Sharing.{cancelled_stays}
use async.Scheduler.{Scheduler, Handle, post_handle}

-- `asio_result<T>` and the exception of the start.
pub record AsioAwaitable (E T : Type 0) : Type 0 where
  pub ct : CancelToken
  pub ec : ErrorCode
  pub value : Option T
  pub ex : Option (Exception E)

-- The scheduler, and the handles that were resumed at once, oldest first.
pub record Resumption (F : Type 0) : Type 0 where
  pub sched : Scheduler F
  pub inline : List Handle

-- What asio does with the operation.
pub data Operation (E T : Type 0) : Type 0 where
  fails : Exception E → Operation E T
  completes : ErrorCode → T → Operation E T

module _ {F : Type 0} where
  abbrev pub inline_resume : Handle → Resumption F → Resumption F
  inline_resume h r = record r { inline = r.inline ++ h ∷ [] }

  -- `resume_on_ctx`; the first argument says whether there is a context.
  unfoldable pub resume_on_ctx : Bool → Option Handle → Resumption F → Resumption F
  unfolding post_handle
  resume_on_ctx has_ctx none r = r
  resume_on_ctx has_ctx (some h) r =
      if not has_ctx
      then inline_resume h r
      else (if r.sched.stop_requested
          then inline_resume h r
          else record r { sched = post_handle (some h) r.sched })

module _ {E T : Type 0} where
  abbrev pub new_awaitable : CancelToken → AsioAwaitable E T
  new_awaitable ct = record { ct = ct; ec = no_error; value = none; ex = none }

  -- The completion handler that `await_suspend` gives to asio.
  abbrev pub complete : ErrorCode → T → AsioAwaitable E T → AsioAwaitable E T
  complete ec v w =
      if is_error ec then record w { ec = ec } else record w { ec = ec; value = some v }

  abbrev pub perform : Operation E T → AsioAwaitable E T → AsioAwaitable E T
  perform (fails x) w = record w { ex = some x }
  perform (completes ec v) w = complete ec v w

  -- `await_suspend` with the completion that it leads to: a cancelled operation is not started, and
  -- each of the three ways resumes the coroutine.
  unfoldable pub operate :
      {F : Type 0}
      → States
      → Bool
      → Option Handle
      → Operation E T
      → AsioAwaitable E T
      → Resumption F
      → AsioAwaitable E T × Resumption F
  unfolding is_cancelled resume_on_ctx
  operate m has_ctx h op w r =
      if is_cancelled m w.ct
      then (w, resume_on_ctx has_ctx h r)
      else (perform op w, resume_on_ctx has_ctx h r)

  abbrev pub take : Option T → Completion E T
  take none = undefined
  take (some v) = returns v

  unfoldable pub await_resume : States → AsioAwaitable E T → Completion E T
  unfolding is_cancelled cancelled_ec
  await_resume m w = if is_cancelled m w.ct then throws (system_error cancelled_ec) else elim w.ex [
    | some x ↦ throws x
    | none ↦ if is_error w.ec then throws (system_error w.ec) else take w.value
  ]

  abbrev pub ended : Operation E T → Completion E T
  ended (fails x) = throws x
  ended (completes ec v) = if is_error ec then throws (system_error ec) else returns v

  -- A network operation resumes its coroutine once, and gives the cancellation if the token is
  -- cancelled by the time the coroutine goes on; otherwise what asio ended with: the exception of the
  -- start, the error code as a `system_error`, or the value. It never reads a missing value, whatever
  -- happens to the flags between the start and the resumption.
  pub operation_outcome :
      {F : Type 0} (m : States) (actions : List Action) (has_ctx : Bool) (h : Option Handle)
      (op : Operation E T) (ct : CancelToken) (r : Resumption F)
      → let (w, r') = operate m has_ctx h op (new_awaitable ct) r in
        (r' ≡ resume_on_ctx has_ctx h r)
        × (await_resume (acts m actions) w ≡ (
            if is_cancelled (acts m actions) ct
            then throws (system_error cancelled_ec)
            else ended op))
  unfolding operate await_resume
  operation_outcome m actions has_ctx h op ct r = ground (arith, cancelled_stays m actions ct)

module _ {F : Type 0} where
  -- A coroutine with a handle is resumed once, either by a post to a scheduler that is not stopped,
  -- or at once, where there is no context or its scheduler was asked to stop; so it is not left in
  -- the queue of a stopped scheduler.
  pub resume_once :
      (has_ctx : Bool) (h : Handle) (r : Resumption F)
      → let t = resume_on_ctx has_ctx (some h) r in
        ((t.sched ≡ post_handle (some h) r.sched)
          × (t.inline ≡ r.inline)
          × (r.sched.stop_requested ≡ false)
          × (has_ctx ≡ true))
        ⊎ ((t.sched ≡ r.sched)
            × (t.inline ≡ r.inline ++ h ∷ [])
            × ((has_ctx ≡ false) ⊎ (r.sched.stop_requested ≡ true)))
  unfolding resume_on_ctx
  resume_once has_ctx h r = ground arith
