-- ===== src/Signal.antt =====
-- src/core/signal.cpp and include/vix/async/core/signal.hpp: the signals that were received, the
-- callback, and the coroutine that waits. Every mutex section is one step of a function here; the
-- platform's `sigwait` is the argument of `receive`. The only callable that the set posts to the
-- scheduler is `deliver`, a value of type `Unit`.
pub mod Waits
pub mod Delivery
pub mod Worker
mod Tests
use async.Prelude.{
  ℕ, ◌+◌, Bool, true, false, Option, none, some, List, [], ◌∷◌, ◌++◌, ◌==◌, if◌then◌else◌,
}
use async.Error.{ErrorCode}
use async.Completion.{Completion, returns, throws, system_error}
use async.Cancel.{States, CancelToken, is_cancelled, cancelled_ec}
use async.Scheduler.{Scheduler, Handle, post, post_handle}

-- `handled` lists the calls of the callback, with the signal that each got, oldest first. A callback
-- is a number.
pub record SignalSet : Type 0 where
  pub signals : List ℕ
  pub on_signal : Option ℕ
  pub pending : List ℕ
  pub started : Bool
  pub stop : Bool
  pub waiter : Option Handle
  pub waiter_active : Bool
  pub sched : Scheduler (Unit {0})
  pub handled : List (ℕ × ℕ)

unfoldable pub add : ℕ → SignalSet → SignalSet
add sig s = record s { signals = s.signals ++ sig ∷ [] }

-- The loop of `remove` over the vector.
pub erase_all : ℕ → List ℕ → List ℕ
erase_all sig [] = []
erase_all sig (x ∷ xs) = let rest = erase_all sig xs in if x == sig then rest else x ∷ rest

unfoldable pub remove : ℕ → SignalSet → SignalSet
unfolding erase_all
remove sig s = record s { signals = erase_all sig s.signals }

unfoldable pub set_on_signal : Option ℕ → SignalSet → SignalSet
set_on_signal f s = record s { on_signal = f }

unfoldable pub stop : SignalSet → SignalSet
stop s = record s { stop = true }

unfoldable pub start_if_needed : SignalSet → SignalSet
start_if_needed s = if s.started then s else record s { started = true }

-- `worker_loop` after `sigwait` has given `sig`: a stopped worker returns; another one queues the
-- signal and posts a delivery.
unfoldable pub receive : ℕ → SignalSet → SignalSet
unfolding post
receive sig s =
    if s.stop
    then s
    else record s { pending = s.pending ++ sig ∷ []; sched = post (some tt) s.sched }

-- The first mutex section of the delivery: the oldest signal, and the waiter if it is active.
abbrev pub take_waiter : SignalSet → Option Handle × SignalSet
take_waiter s =
    if s.waiter_active
    then (s.waiter, record s { waiter = none; waiter_active = false })
    else (none, s)

-- The rest of the delivery: the callback, the signal put back, and the waiter posted.
abbrev pub call_handler : Option ℕ → ℕ → SignalSet → SignalSet
call_handler none sig s = s
call_handler (some f) sig s = record s { handled = s.handled ++ (f, sig) ∷ [] }

abbrev pub put_back : ℕ → Option Handle → SignalSet → SignalSet
put_back sig (some h) s = record s {
  pending = s.pending ++ sig ∷ [];
  sched = post_handle (some h) s.sched;
}
put_back sig none s = record s { pending = s.pending ++ sig ∷ [] }

abbrev pub deliver_from : List ℕ → SignalSet → SignalSet
deliver_from [] s = s
deliver_from (sig ∷ rest) s =
    let (w, s') = take_waiter (record s { pending = rest }) in
    put_back sig w (call_handler s.on_signal sig s')

-- The lambda that `worker_loop` posts, with no other thread between its parts, and a callback that
-- returns and leaves the set alone. Signal/Worker has the parts as steps of their own.
unfoldable pub deliver : SignalSet → SignalSet
unfolding post_handle
deliver s = deliver_from s.pending s

-- The awaitable of `async_wait`: its token and its own variable `sig`.
pub record Awaitable : Type 0 where
  pub ct : CancelToken
  pub sig : ℕ

abbrev pub new_awaitable : CancelToken → Awaitable
new_awaitable ct = record { ct = ct; sig = 0 }

abbrev pub ready_from : List ℕ → Awaitable → SignalSet → Bool × Awaitable × SignalSet
ready_from [] w s = (false, w, s)
ready_from (x ∷ rest) w s = (true, record w { sig = x }, record s { pending = rest })

unfoldable pub await_ready : Awaitable → SignalSet → Bool × Awaitable × SignalSet
await_ready w s = ready_from s.pending w s

abbrev pub suspend_from : List ℕ → Handle → Awaitable → SignalSet → Awaitable × SignalSet
suspend_from [] h w s = (w, record s { waiter = some h; waiter_active = true })
suspend_from (x ∷ rest) h w s =
    (record w { sig = x }, record s { pending = rest; sched = post_handle (some h) s.sched })

unfoldable pub await_suspend : States → Handle → Awaitable → SignalSet → Awaitable × SignalSet
unfolding is_cancelled post_handle
await_suspend m h w s =
    if is_cancelled m w.ct
    then (w, record s { sched = post_handle (some h) s.sched })
    else suspend_from s.pending h w s

unfoldable pub await_resume : States → Awaitable → Completion (Unit {0}) ℕ
unfolding is_cancelled cancelled_ec
await_resume m w = if is_cancelled m w.ct then throws (system_error cancelled_ec) else returns w.sig
