-- ===== src/Signal/Worker/Blocked.antt =====
-- When the worker does not run, and when the destructor does not return.
use async.Prelude.{
  ℕ, ◌≡◌, refl, ◌∙◌, inl, inr, Bool, true, false, Option, none, some, List, [], ◌∷◌, arith,
  Option-cases,
}
use async.Cancel.{States, CancelToken}
use async.Scheduler.{Handle}
use async.Signal.{
  SignalSet, add, remove, set_on_signal, stop, start_if_needed, ready_from, suspend_from, Awaitable,
  new_awaitable, await_ready, await_suspend,
}
use async.Signal.Worker.{
  absent, in_sigwait, System, Event, adds, removes, sets, stops, starts, readies, suspends, copies,
  arrives, fails, queues, delivers, calls, escapes, puts_back, wakes, joins, Delivery, resting,
  popped, call_at, start, deliver_at, step, steps,
}

-- No event is a call of `async_wait`.
abbrev pub no_wait : List Event → Bool
no_wait [] = true
no_wait (starts ∷ es) = false
no_wait (readies ct ∷ es) = false
no_wait (suspends flags h w ∷ es) = false
no_wait (e ∷ es) = no_wait es

-- Nothing has been received, posted or handled.
abbrev Quiet : System → Type 0
Quiet s =
    (s.pc ≡ absent)
    × (s.set.pending ≡ [])
    × (s.set.sched.fn_q ≡ [])
    × (s.set.handled ≡ [])
    × (s.delivery ≡ resting)

step-Quiet :
    (e : Event) (s t : System) → no_wait (e ∷ []) ≡ true → step e s ≡ some t → Quiet s → Quiet t
unfolding step add remove set_on_signal stop
step-Quiet starts s t n p q = cc
step-Quiet (readies ct) s t n p q = cc
step-Quiet (suspends flags h w) s t n p q = cc
step-Quiet copies s t n p q = ground arith
step-Quiet (arrives sig) s t n p q = ground arith
step-Quiet fails s t n p q = ground arith
step-Quiet queues s t n p q = ground arith
step-Quiet delivers s t n p q = ground arith
step-Quiet calls s t n p q = ground arith
step-Quiet escapes s t n p q = ground arith
step-Quiet puts_back s t n p q = ground arith
step-Quiet wakes s t n p q = ground arith
step-Quiet (joins self) s t n p q = ground arith
step-Quiet (adds sig) s t n p q = ground arith
step-Quiet (removes sig) s t n p q = ground arith
step-Quiet (sets f) s t n p q = ground arith
step-Quiet stops s t n p q = ground arith

no_wait-cons :
    (e : Event) (es : List Event)
    → no_wait (e ∷ es) ≡ true
    → (no_wait (e ∷ []) ≡ true) × (no_wait es ≡ true)
no_wait-cons starts es n = cc
no_wait-cons (readies ct) es n = cc
no_wait-cons (suspends flags h w) es n = cc
no_wait-cons _ es n = (refl, n)

steps-Quiet :
    (es : List Event) (s t : System) → no_wait es ≡ true → steps es s ≡ some t → Quiet s → Quiet t
unfolding steps
steps-Quiet [] s t n p q = ground (arith, q)
steps-Quiet (e ∷ es) s t n p q = elim (Option-cases (step e s)) [
  | inl r ↦ cc (rw (r, steps) at p)
  | inr (u, r) ↦
      let (one, rest) = no_wait-cons e es n in
      steps-Quiet es u t rest (rw (r, steps) at p) (step-Quiet e s u one r q)
]

-- A callback alone receives nothing: as long as `async_wait` has not been called, no thread watches
-- for the observed signals, whatever was added and whichever callback was set, and the callback is
-- never called.
pub callback_needs_wait :
    (es : List Event) (t : System)
    → no_wait es ≡ true
    → steps es start ≡ some t
    → (t.pc ≡ absent) × (t.set.handled ≡ [])
callback_needs_wait es t n p =
    let q = steps-Quiet es start t n p (refl, refl, refl, refl, refl) in (q.0, q.3)

-- No event is a return of `sigwait`, nor a destructor in the worker's own thread.
abbrev pub no_return : List Event → Bool
no_return [] = true
no_return (arrives sig ∷ es) = false
no_return (fails ∷ es) = false
no_return (joins true ∷ es) = false
no_return (e ∷ es) = no_return es

-- Whether a destructor has got through.
abbrev pub has_join : List Event → Bool
has_join [] = false
has_join (joins self ∷ es) = true
has_join (e ∷ es) = has_join es

ready-started :
    (ct : CancelToken) (s : SignalSet) → (await_ready (new_awaitable ct) s).2.started ≡ s.started
unfolding await_ready
ready-started ct s = by_queue s.pending
  where
    by_queue : (q : List ℕ) → (ready_from q (new_awaitable ct) s).2.started ≡ s.started
    by_queue [] = refl
    by_queue (x ∷ rest) = refl

suspend-started :
    (flags : States) (h : Handle) (w : Awaitable) (s : SignalSet)
    → (await_suspend flags h w s).1.started ≡ s.started
unfolding await_suspend
suspend-started flags h w s = ground (arith, by_queue s.pending)
  where
    by_queue : (q : List ℕ) → (suspend_from q h w s).1.started ≡ s.started
    by_queue [] = refl
    by_queue (x ∷ rest) = refl

-- Every event that keeps the worker where it is.
abbrev Waits : List ℕ → System → Type 0
Waits sigs s = (s.set.started ≡ true) × (s.pc ≡ in_sigwait sigs)

deliver_at-Waits :
    (d : Delivery) (q : List (Option (Unit {0}))) (s t : System) (sigs : List ℕ)
    → deliver_at d q s ≡ some t
    → Waits sigs s
    → Waits sigs t × (has_join (delivers ∷ []) ≡ false)
deliver_at-Waits resting (f ∷ fs) s t sigs p w = (by_queue s.set.pending refl, refl)
  where
    by_queue : (q : List ℕ) → s.set.pending ≡ q → Waits sigs t
    by_queue [] e = ground (arith, w)
    by_queue (y ∷ ys) e = ground (arith, w)
deliver_at-Waits _ q s t sigs p w = cc

call_at-Waits :
    (d : Delivery) (s t : System) (sigs : List ℕ)
    → call_at d s ≡ some t
    → Waits sigs s
    → Waits sigs t
call_at-Waits (popped sig none w) s t sigs p k = ground (arith, k)
call_at-Waits (popped sig (some f) w) s t sigs p k = ground (arith, k)
call_at-Waits _ s t sigs p k = cc

step-Waits :
    (e : Event) (s t : System) (sigs : List ℕ)
    → no_return (e ∷ []) ≡ true
    → step e s ≡ some t
    → Waits sigs s
    → Waits sigs t × (has_join (e ∷ []) ≡ false)
unfolding step add remove set_on_signal stop start_if_needed
step-Waits (arrives sig) s t sigs n p w = cc
step-Waits fails s t sigs n p w = cc
step-Waits (joins true) s t sigs n p w = cc
step-Waits (joins false) s t sigs n p w = ground arith
step-Waits (readies ct) s t sigs n p w = ground (arith, ready-started ct s.set)
step-Waits (suspends flags h a) s t sigs n p w = ground (arith, suspend-started flags h a s.set)
step-Waits copies s t sigs n p w = ground arith
step-Waits queues s t sigs n p w = ground arith
step-Waits delivers s t sigs n p w = deliver_at-Waits s.delivery s.set.sched.fn_q s t sigs p w
step-Waits calls s t sigs n p w = (call_at-Waits s.delivery s t sigs p w, refl)
step-Waits escapes s t sigs n p w = ground arith
step-Waits puts_back s t sigs n p w = ground arith
step-Waits wakes s t sigs n p w = ground arith
step-Waits (adds sig) s t sigs n p w = ground arith
step-Waits (removes sig) s t sigs n p w = ground arith
step-Waits (sets f) s t sigs n p w = ground arith
step-Waits stops s t sigs n p w = ground arith
step-Waits starts s t sigs n p w = ground arith

no_return-cons :
    (e : Event) (es : List Event)
    → no_return (e ∷ es) ≡ true
    → (no_return (e ∷ []) ≡ true) × (no_return es ≡ true)
no_return-cons (arrives sig) es n = cc
no_return-cons fails es n = cc
no_return-cons (joins true) es n = cc
no_return-cons (joins false) es n = (refl, n)
no_return-cons _ es n = (refl, n)

has_join-cons :
    (e : Event) (es : List Event) → has_join (e ∷ []) ≡ false → has_join (e ∷ es) ≡ has_join es
has_join-cons (joins self) es n = cc
has_join-cons _ es n = refl

-- A worker in `sigwait` stays there, with its copy of the observed signals, until one of those comes
-- or the call fails: neither `stop` nor a new signal that is added reaches it. A destructor in
-- another thread does not return before.
pub destructor_waits :
    (es : List Event) (s t : System) (sigs : List ℕ)
    → s.set.started ≡ true
    → s.pc ≡ in_sigwait sigs
    → no_return es ≡ true
    → steps es s ≡ some t
    → (t.pc ≡ in_sigwait sigs) × (has_join es ≡ false)
unfolding steps
destructor_waits [] s t sigs on at n p = (ground arith, refl)
destructor_waits (e ∷ es) s t sigs on at n p = elim (Option-cases (step e s)) [
  | inl r ↦ cc (rw (r, steps) at p)
  | inr (u, r) ↦
      let (one, rest) = no_return-cons e es n in
      let ((on', at'), apart) = step-Waits e s u sigs one r (on, at) in
      let (last, none') = destructor_waits es u t sigs on' at' rest (rw (r, steps) at p) in
      (last, has_join-cons e es apart ∙ none')
]
