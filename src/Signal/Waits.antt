-- ===== src/Signal/Waits.antt =====
-- What `async_wait` gives.
use async.Prelude.{ℕ, ◌≡◌, true, false, some, [], ◌∷◌, arith}
use async.Completion.{returns, throws, system_error}
use async.Cancel.{States, CancelToken, is_cancelled, cancelled_ec}
use async.Scheduler.{Handle, post, post_handle}
use async.Signal.{
  SignalSet, receive, deliver, new_awaitable, await_ready, await_suspend, await_resume,
}

-- A wait that has to suspend gets the wrong number: the coroutine is posted when the next signal
-- `sig` is delivered, but its awaitable still holds 0, which it returns whatever `sig` is, and `sig`
-- stays queued for the next wait.
pub wait_returns_zero :
    (m : States) (ct : CancelToken) (h : Handle) (sig : ℕ) (s : SignalSet)
    → s.pending ≡ []
    → s.stop ≡ false
    → is_cancelled m ct ≡ false
    → let (ready, w, s') = await_ready (new_awaitable ct) s in
      let (w', s'') = await_suspend m h w s' in
      let t = deliver (receive sig s'') in
      (ready ≡ false)
      × (t.sched ≡ post_handle (some h) (post (some tt) s.sched))
      × (await_resume m w' ≡ returns 0)
      × (t.pending ≡ sig ∷ [])
unfolding await_ready await_suspend await_resume receive deliver
wait_returns_zero m ct h sig s e on c = ground arith

-- A wait whose token is cancelled while no signal is there resumes at once, by the scheduler, and
-- throws the cancellation; it leaves no waiter behind.
pub cancelled_wait :
    (m : States) (ct : CancelToken) (h : Handle) (s : SignalSet)
    → s.pending ≡ []
    → is_cancelled m ct ≡ true
    → let (ready, w, s') = await_ready (new_awaitable ct) s in
      let (w', t) = await_suspend m h w s' in
      (ready ≡ false)
      × (t.sched ≡ post_handle (some h) s.sched)
      × (t.waiter_active ≡ s.waiter_active)
      × (await_resume m w' ≡ throws (system_error cancelled_ec))
unfolding await_ready await_suspend await_resume
cancelled_wait m ct h s e c = ground arith
