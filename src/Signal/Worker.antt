-- ===== src/Signal/Worker.antt =====
-- src/core/signal.cpp: `worker_loop` and the destructor, interleaved with the other threads and with
-- the scheduler. When `sigwait` returns, and with which of its signals, is an event.
pub mod Queue
pub mod Blocked
mod Tests
use async.Prelude.{
  ℕ, zero, suc, ◌+◌, ◌-◌, ◌*◌, ◌%◌, ◌^◌, ◌≤◌, ◌<◌, ◌≡◌, refl, sym, ap, ◌∙◌, ◌≢◌, ◌↔◌, ◌⊎◌, inl, inr,
  Bool, true, false, ◌&&◌, ◌||◌, not, Option, none, some, List, [], ◌∷◌, ◌++◌, map, append-nil,
  append_assoc, arith, dec_lt, ℕ_discrete, ltb, leb, ◌==◌, if◌then◌else◌, ltb→lt, lt→ltb, leb→le,
  ==_iff, tests, Bool-cases, Option-cases, length, get_elem?, set, replicate, is_empty, is_some,
  length-append, length-set, get_elem?-some, Each, Each-append,
}
use async.Cancel.{States, CancelToken, is_cancelled}
use async.Scheduler.{Scheduler, Handle, empty, post_handle}
use async.Signal.{
  SignalSet, add, remove, set_on_signal, stop, start_if_needed, receive, take_waiter, call_handler,
  Awaitable, new_awaitable, await_ready, await_suspend,
}

-- Where the worker thread stands: not started; before the first mutex section of the loop; in
-- `sigwait` with its copy of the observed signals; behind it with a signal; and returned.
pub data Pc : Type 0 where
  absent : Pc
  at_lock : Pc
  in_sigwait : List ℕ → Pc
  holding : ℕ → Pc
  exited : Pc

-- Where the posted lambda stands, on the thread of the scheduler: not called; behind its first mutex
-- section, with the signal, the callback and the waiter; behind the callback; and before the post of
-- the waiter.
pub data Delivery : Type 0 where
  resting : Delivery
  popped : ℕ → Option ℕ → Option Handle → Delivery
  called : ℕ → Option Handle → Delivery
  waking : Handle → Delivery

-- `received` lists the signals that the worker has queued, `taken` those that a wait has taken out of
-- the queue, and `lost` those whose callback threw, oldest first.
pub record System : Type 0 where
  pub set : SignalSet
  pub pc : Pc
  pub delivery : Delivery
  pub received : List ℕ
  pub taken : List ℕ
  pub lost : List ℕ

-- `async_wait` is `starts`, then `readies`, then `suspends` with what it finds of its token then.
pub data Event : Type 0 where
  adds : ℕ → Event
  removes : ℕ → Event
  sets : Option ℕ → Event
  stops : Event
  starts : Event
  readies : CancelToken → Event
  suspends : States → Handle → Awaitable → Event
  copies : Event
  arrives : ℕ → Event
  fails : Event
  queues : Event
  delivers : Event
  calls : Event
  escapes : Event
  puts_back : Event
  wakes : Event
  joins : Bool → Event

abbrev pub new_set : SignalSet
new_set = record {
  signals = [];
  on_signal = none;
  pending = [];
  started = false;
  stop = false;
  waiter = none;
  waiter_active = false;
  sched = empty;
  handled = [];
}

abbrev pub start : System
start = record {
  set = new_set;
  pc = absent;
  delivery = resting;
  received = [];
  taken = [];
  lost = [];
}

abbrev pub mem : ℕ → List ℕ → Bool
mem i [] = false
mem i (x ∷ xs) = x == i || mem i xs

abbrev pub first : List ℕ → List ℕ
first [] = []
first (x ∷ xs) = x ∷ []

-- The thread is made by the call that sets `started_`.
abbrev pub thread_of : Bool → Pc → Pc
thread_of true pc = pc
thread_of false pc = at_lock

-- The top of the loop: leave, sleep where nothing is observed, or copy the signals and wait.
abbrev pub copy_from : List ℕ → System → System
copy_from [] s = s
copy_from (x ∷ xs) s = record s { pc = in_sigwait (x ∷ xs) }

abbrev pub copy_at : Pc → System → Option System
copy_at at_lock s =
    if s.set.stop then some (record s { pc = exited }) else some (copy_from s.set.signals s)
copy_at _ s = none

abbrev pub arrive_at : Pc → ℕ → System → Option System
arrive_at (in_sigwait sigs) sig s =
    if mem sig sigs then some (record s { pc = holding sig }) else none
arrive_at _ sig s = none

abbrev pub fail_at : Pc → System → Option System
fail_at (in_sigwait sigs) s = some (record s { pc = at_lock })
fail_at _ s = none

abbrev pub queue_at : Pc → System → Option System
queue_at (holding sig) s =
    if s.set.stop
    then some (record s { pc = exited })
    else some
        (record s { set = receive sig s.set; pc = at_lock; received = s.received ++ sig ∷ [] })
queue_at _ s = none

-- The first mutex section of the lambda.
abbrev pub pop_from : List ℕ → System → System
pop_from [] s = s
pop_from (sig ∷ rest) s =
    let (w, set) = take_waiter (record s.set { pending = rest }) in
    record s { set = set; delivery = popped sig s.set.on_signal w }

-- The scheduler calls the oldest lambda that was posted, when the one before has ended.
abbrev pub deliver_at : Delivery → List (Option (Unit {0})) → System → Option System
deliver_at resting (f ∷ fs) s =
    let s' = record s { set = record s.set { sched = record s.set.sched { fn_q = fs } } } in
    some (pop_from s.set.pending s')
deliver_at _ fs s = none

abbrev pub call_at : Delivery → System → Option System
call_at (popped sig f w) s =
    some (record s { set = call_handler f sig s.set; delivery = called sig w })
call_at _ s = none

-- An exception of the callback leaves the lambda, which does not put the signal back then.
abbrev pub escape_at : Delivery → System → Option System
escape_at (popped sig (some f) w) s = some (record s {
  set = call_handler (some f) sig s.set;
  delivery = resting;
  lost = s.lost ++ sig ∷ [];
})
escape_at _ s = none

-- The second mutex section.
abbrev pub put_at : Delivery → System → Option System
put_at (called sig w) s = some (record s {
  set = record s.set { pending = s.set.pending ++ sig ∷ [] };
  delivery = elim w [ none ↦ resting | some h ↦ waking h ];
})
put_at _ s = none

abbrev pub wake_at : Delivery → System → Option System
wake_at (waking h) s = some (record s {
  set = record s.set { sched = post_handle (some h) s.set.sched };
  delivery = resting;
})
wake_at _ s = none

-- The destructor after its `stop`: without a thread there is nothing to join, a destructor in the
-- worker's thread detaches it, and another one waits for its end.
abbrev pub join_at : Pc → Bool → System → Option System
join_at absent self s = some s
join_at exited self s = some s
join_at _ self s = if self then some s else none

unfoldable pub step : Event → System → Option System
unfolding add remove set_on_signal stop start_if_needed receive await_ready await_suspend
    is_cancelled post_handle
step (adds sig) s = some (record s { set = add sig s.set })
step (removes sig) s = some (record s { set = remove sig s.set })
step (sets f) s = some (record s { set = set_on_signal f s.set })
step stops s = some (record s { set = stop s.set })
step starts s = some (record s { set = start_if_needed s.set; pc = thread_of s.set.started s.pc })
step (readies ct) s = some (record s {
  set = (await_ready (new_awaitable ct) s.set).2;
  taken = s.taken ++ first s.set.pending;
})
step (suspends flags h w) s = some (record s {
  set = (await_suspend flags h w s.set).1;
  taken = s.taken ++ (if is_cancelled flags w.ct then [] else first s.set.pending);
})
step copies s = copy_at s.pc s
step (arrives sig) s = arrive_at s.pc sig s
step fails s = fail_at s.pc s
step queues s = queue_at s.pc s
step delivers s = deliver_at s.delivery s.set.sched.fn_q s
step calls s = call_at s.delivery s
step escapes s = escape_at s.delivery s
step puts_back s = put_at s.delivery s
step wakes s = wake_at s.delivery s
step (joins self) s = join_at s.pc self s

unfoldable pub steps : List Event → System → Option System
steps [] s = some s
steps (e ∷ es) s = elim (step e s) [ none ↦ none | some t ↦ steps es t ]
