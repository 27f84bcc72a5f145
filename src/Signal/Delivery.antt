-- ===== src/Signal/Delivery.antt =====
-- What the deliveries do to the queue of received signals and to the callback.
use async.Prelude.{
  ℕ, ◌≡◌, refl, false, some, List, [], ◌∷◌, ◌++◌, append_assoc, arith, count, count-append,
}
use async.Signal.{SignalSet, receive, deliver_from, deliver}

deliver_from-count :
    (i : ℕ) (q : List ℕ) (s : SignalSet)
    → s.pending ≡ q
    → count i (deliver_from q s).pending ≡ count i s.pending
deliver_from-count i [] s e = refl
deliver_from-count i (x ∷ rest) s e = ground (arith, count-append i rest (x ∷ []))

-- A delivery loses no received signal, and it removes none either: each signal is queued after it as
-- often as before, with or without a waiter.
pub deliver_keeps_pending :
    (i : ℕ) (s : SignalSet) → count i (deliver s).pending ≡ count i s.pending
unfolding deliver
deliver_keeps_pending i s = deliver_from-count i s.pending s refl

-- Two signals are received and delivered one after the other, with a callback, no waiter and no
-- earlier signal: the callback gets the first signal twice and never the second, and both stay
-- queued.
pub handler_repeats :
    (a b f : ℕ) (s : SignalSet)
    → s.stop ≡ false
    → s.pending ≡ []
    → s.waiter_active ≡ false
    → s.on_signal ≡ some f
    → let t = deliver (receive b (deliver (receive a s))) in
      (t.handled ≡ s.handled ++ ((f, a) ∷ (f, a) ∷ [])) × (t.pending ≡ b ∷ a ∷ [])
unfolding deliver receive
handler_repeats a b f s on e w h =
    ground (arith, append_assoc s.handled ((f, a) ∷ []) ((f, a) ∷ []))
