-- ===== src/Signal/Worker/Tests.antt =====
-- SIGTERM, 15, comes while SIGINT, 2, is queued, and its callback is about to be called.
use async.Prelude.{◌+◌, ◌≡◌, refl, true, false, none, some, List, [], ◌∷◌, count}
use async.Cancel.{empty_token}
use async.Signal.{SignalSet, add, receive, await_ready, start_if_needed, stop, set_on_signal}
use async.Signal.Worker.{
  absent, at_lock, in_sigwait, System, Event, adds, sets, stops, starts, readies, copies, arrives,
  queues, delivers, calls, puts_back, resting, popped, new_set, step, steps,
}
use async.Signal.Worker.Queue.{in_hand, pending_exact}
use async.Signal.Worker.Blocked.{has_join, callback_needs_wait, destructor_waits}

abbrev watched : SignalSet
watched = record new_set { signals = 2 ∷ 15 ∷ []; started = true }

abbrev watching : System
watching = record {
  set = watched;
  pc = in_sigwait (2 ∷ 15 ∷ []);
  delivery = resting;
  received = [];
  taken = [];
  lost = [];
}

abbrev history : List Event
history =
    adds 2
    ∷ adds 15
    ∷ starts
    ∷ copies
    ∷ arrives 2
    ∷ queues
    ∷ delivers
    ∷ calls
    ∷ puts_back
    ∷ copies
    ∷ arrives 15
    ∷ queues
    ∷ readies empty_token
    ∷ sets (some 7)
    ∷ delivers
    ∷ []

abbrev reached : System
reached = record {
  set = record watched { on_signal = some 7 };
  pc = at_lock;
  delivery = popped 15 (some 7) none;
  received = 2 ∷ 15 ∷ [];
  taken = 2 ∷ [];
  lost = [];
}

pending_exact_example :
    count 15 reached.set.pending
      + count 15 (in_hand reached.delivery)
      + count 15 reached.taken
      + count 15 reached.lost
    ≡ count 15 reached.received
unfolding step steps add receive await_ready start_if_needed set_on_signal
pending_exact_example = pending_exact 15 history reached refl

abbrev unheard : System
unheard = record {
  set = record new_set { signals = 2 ∷ []; on_signal = some 7 };
  pc = absent;
  delivery = resting;
  received = [];
  taken = [];
  lost = [];
}

callback_needs_wait_example : (unheard.pc ≡ absent) × (unheard.set.handled ≡ [])
unfolding step steps add set_on_signal
callback_needs_wait_example = callback_needs_wait (adds 2 ∷ sets (some 7) ∷ []) unheard refl refl

abbrev stopped : System
stopped = record watching { set = record watched { signals = 2 ∷ 15 ∷ 10 ∷ []; stop = true } }

destructor_waits_example :
    (stopped.pc ≡ in_sigwait (2 ∷ 15 ∷ [])) × (has_join (adds 10 ∷ stops ∷ []) ≡ false)
unfolding step steps add stop
destructor_waits_example =
    destructor_waits (adds 10 ∷ stops ∷ []) watching stopped (2 ∷ 15 ∷ []) refl refl refl refl
