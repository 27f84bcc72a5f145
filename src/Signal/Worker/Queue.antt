-- ===== src/Signal/Worker/Queue.antt =====
-- The queue of received signals.
use async.Prelude.{
  ℕ, ◌+◌, ◌≡◌, refl, inl, inr, Option, none, some, List, [], ◌∷◌, arith, if◌then◌else◌,
  Option-cases, count, count-append,
}
use async.Cancel.{States, is_cancelled}
use async.Scheduler.{Handle}
use async.Signal.{SignalSet, receive, Awaitable, new_awaitable, await_ready, await_suspend}
use async.Signal.Worker.{
  Pc, at_lock, holding, System, Event, readies, suspends, copies, queues, delivers, calls, escapes,
  puts_back, wakes, Delivery, resting, popped, called, waking, call_at, escape_at, put_at, wake_at,
  start, first, copy_at, queue_at, deliver_at, step, steps,
}

-- The signal that a delivery has taken out and not put back yet.
abbrev pub in_hand : Delivery → List ℕ
in_hand (popped sig f w) = sig ∷ []
in_hand (called sig w) = sig ∷ []
in_hand _ = []

abbrev Exact : ℕ → System → Type 0
Exact i s =
    count i s.set.pending + count i (in_hand s.delivery) + count i s.taken + count i s.lost
    ≡ count i s.received

suspend-count :
    (i : ℕ) (flags : States) (h : Handle) (w : Awaitable) (s : SignalSet)
    → count i (await_suspend flags h w s).1.pending
        + count i (if is_cancelled flags w.ct then [] else first s.pending)
      ≡ count i s.pending
unfolding await_suspend
suspend-count i flags h w s = by_queue s.pending refl
  where
    by_queue :
        (q : List ℕ)
        → s.pending ≡ q
        → count i (await_suspend flags h w s).1.pending
            + count i (if is_cancelled flags w.ct then [] else first s.pending)
          ≡ count i s.pending
    by_queue [] e = ground arith
    by_queue (x ∷ rest) e = ground arith

ready-count :
    (i : ℕ) (w : Awaitable) (s : SignalSet)
    → count i (await_ready w s).2.pending + count i (first s.pending) ≡ count i s.pending
unfolding await_ready
ready-count i w s = by_queue s.pending refl
  where
    by_queue :
        (q : List ℕ)
        → s.pending ≡ q
        → count i (await_ready w s).2.pending + count i (first s.pending) ≡ count i s.pending
    by_queue [] e = ground arith
    by_queue (x ∷ rest) e = ground arith

queue_at-Exact : (i : ℕ) (pc : Pc) (s t : System) → queue_at pc s ≡ some t → Exact i s → Exact i t
unfolding receive
queue_at-Exact i (holding sig) s t p x =
    ground (arith, count-append i s.set.pending (sig ∷ []), count-append i s.received (sig ∷ []))
queue_at-Exact i _ s t p x = cc

deliver_at-Exact :
    (i : ℕ) (d : Delivery) (q : List (Option (Unit {0}))) (s t : System)
    → s.delivery ≡ d
    → deliver_at d q s ≡ some t
    → Exact i s
    → Exact i t
deliver_at-Exact i resting (f ∷ fs) s t e p x = by_queue s.set.pending refl
  where
    by_queue : (q : List ℕ) → s.set.pending ≡ q → Exact i t
    by_queue [] e' = ground (arith, x)
    by_queue (y ∷ ys) e' = ground (arith, x)
deliver_at-Exact i _ q s t e p x = cc

call_at-Exact :
    (i : ℕ) (d : Delivery) (s t : System)
    → s.delivery ≡ d
    → call_at d s ≡ some t
    → Exact i s
    → Exact i t
call_at-Exact i (popped sig none w) s t e p x = ground (arith, x)
call_at-Exact i (popped sig (some f) w) s t e p x = ground (arith, x)
call_at-Exact i _ s t e p x = cc

escape_at-Exact :
    (i : ℕ) (d : Delivery) (s t : System)
    → s.delivery ≡ d
    → escape_at d s ≡ some t
    → Exact i s
    → Exact i t
escape_at-Exact i (popped sig (some f) w) s t e p x =
    ground (arith, x, count-append i s.lost (sig ∷ []))
escape_at-Exact i _ s t e p x = cc

put_at-Exact :
    (i : ℕ) (d : Delivery) (s t : System)
    → s.delivery ≡ d
    → put_at d s ≡ some t
    → Exact i s
    → Exact i t
put_at-Exact i (called sig none) s t e p x =
    ground (arith, x, count-append i s.set.pending (sig ∷ []))
put_at-Exact i (called sig (some h)) s t e p x =
    ground (arith, x, count-append i s.set.pending (sig ∷ []))
put_at-Exact i _ s t e p x = cc

wake_at-Exact :
    (i : ℕ) (d : Delivery) (s t : System)
    → s.delivery ≡ d
    → wake_at d s ≡ some t
    → Exact i s
    → Exact i t
wake_at-Exact i (waking h) s t e p x = ground (arith, x)
wake_at-Exact i _ s t e p x = cc

copy_at-Exact : (i : ℕ) (pc : Pc) (s t : System) → copy_at pc s ≡ some t → Exact i s → Exact i t
copy_at-Exact i at_lock s t p x = by_list s.set.signals refl
  where
    by_list : (q : List ℕ) → s.set.signals ≡ q → Exact i t
    by_list [] e = ground arith
    by_list (y ∷ ys) e = ground arith
copy_at-Exact i _ s t p x = cc

step-Exact : (i : ℕ) (e : Event) (s t : System) → step e s ≡ some t → Exact i s → Exact i t
unfolding step
step-Exact i (readies ct) s t p x =
    ground
      (arith, ready-count i (new_awaitable ct) s.set, count-append i s.taken (first s.set.pending))
step-Exact i (suspends flags h w) s t p x =
    let got = if is_cancelled flags w.ct then [] else first s.set.pending in
    ground (arith, suspend-count i flags h w s.set, count-append i s.taken got)
step-Exact i copies s t p x = copy_at-Exact i s.pc s t p x
step-Exact i queues s t p x = queue_at-Exact i s.pc s t p x
step-Exact i delivers s t p x = deliver_at-Exact i s.delivery s.set.sched.fn_q s t refl p x
step-Exact i calls s t p x = call_at-Exact i s.delivery s t refl p x
step-Exact i escapes s t p x = escape_at-Exact i s.delivery s t refl p x
step-Exact i puts_back s t p x = put_at-Exact i s.delivery s t refl p x
step-Exact i wakes s t p x = wake_at-Exact i s.delivery s t refl p x
step-Exact i _ s t p x = ground arith

steps-Exact : (i : ℕ) (es : List Event) (s t : System) → steps es s ≡ some t → Exact i s → Exact i t
unfolding steps
steps-Exact i [] s t p x = ground (arith, x)
steps-Exact i (e ∷ es) s t p x = elim (Option-cases (step e s)) [
  | inl q ↦ cc (rw (q, steps) at p)
  | inr (u, q) ↦ steps-Exact i es u t (rw (q, steps) at p) (step-Exact i e s u q x)
]

-- Under every interleaving of the worker with the deliveries, the waits and the other calls, from a
-- new set on: each signal stands in the queue as often as the worker has received it, less the times
-- that a wait has taken it out, that its callback threw, and that a delivery has it out at that
-- moment. So the deliveries use no signal up, unless the callback throws.
pub pending_exact :
    (i : ℕ) (es : List Event) (t : System)
    → steps es start ≡ some t
    → count i t.set.pending + count i (in_hand t.delivery) + count i t.taken + count i t.lost
      ≡ count i t.received
pending_exact i es t p = steps-Exact i es start t p refl
