-- ===== src/Signal/Tests.antt =====
-- A set that observes two signals, and one without a callback.
use async.Prelude.{◌≡◌, refl, true, false, none, some, [], ◌∷◌}
use async.Completion.{returns}
use async.Cancel.{States, CancelToken, is_cancelled, load}
use async.Scheduler.{empty, post, post_handle}
use async.Signal.{
  SignalSet, receive, deliver, new_awaitable, await_ready, await_suspend, await_resume,
}
use async.Signal.Waits.{wait_returns_zero}

-- SIGINT is 2 and SIGTERM is 15.
abbrev quiet : SignalSet
quiet = record {
  signals = 2 ∷ 15 ∷ [];
  on_signal = some 7;
  pending = [];
  started = true;
  stop = false;
  waiter = none;
  waiter_active = false;
  sched = empty;
  handled = [];
}

-- The first flag is set.
abbrev flags : States
flags = true ∷ false ∷ []

abbrev live : CancelToken
live = record { st = some 1 }

wait_returns_zero_example :
    let (ready, w, s') = await_ready (new_awaitable live) quiet in
    let (w', s'') = await_suspend flags 4 w s' in
    let t = deliver (receive 15 s'') in
    (ready ≡ false)
    × (t.sched ≡ post_handle (some 4) (post (some tt) quiet.sched))
    × (await_resume flags w' ≡ returns 0)
    × (t.pending ≡ 15 ∷ [])
unfolding is_cancelled load
wait_returns_zero_example = wait_returns_zero flags live 4 15 quiet refl refl refl
