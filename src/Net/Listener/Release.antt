-- ===== src/Net/Listener/Release.antt =====
-- src/net/asio_tcp.cpp, `tcp_listener_asio::close`: what becomes of the acceptor.
use mathlib.Core.Option.{some-injective}
use async.Prelude.{◌≡◌, refl, inl, inr, Bool, true, false, some, List, [], ◌∷◌, arith, Option-cases}
use async.Completion.{throws, system_error}
use async.Cancel.{States, CancelToken, cancelled_ec}
use async.Net.Listener.{
  Listener, Event, listens, closes, executes, admit, close, listen, execute, step, steps,
  new_listener,
}

abbrev pub no_listen : List Event → Bool
no_listen [] = true
no_listen (listens a ∷ es) = false
no_listen (e ∷ es) = no_listen es

-- An open listener is not closing.
abbrev Opened : Listener → Type 0
Opened s = s.is_open ≡ true → s.is_closing ≡ false

step-Opened : (e : Event) (s t : Listener) → step e s ≡ some t → Opened s → Opened t
unfolding step listen close execute
step-Opened (listens a) s t p o = ground (arith, o)
step-Opened closes s t p o = ground arith
step-Opened executes s t p o = ground (arith, o)

steps-Opened : (es : List Event) (s t : Listener) → steps es s ≡ some t → Opened s → Opened t
unfolding steps
steps-Opened [] s t p o = ground (arith, o)
steps-Opened (e ∷ es) s t p o = elim (Option-cases (step e s)) [
  | inl q ↦ cc (rw (q, steps) at p)
  | inr (u, q) ↦ steps-Opened es u t (rw (q, steps) at p) (step-Opened e s u q o)
]

-- A closed listener, whose acceptor is closed or about to be.
pub record Shut (s : Listener) : Type 0 where
  pub shut : s.is_open ≡ false
  pub closing : s.is_closing ≡ true
  pub released : s.posted ≡ 0 → s.acceptor ≡ false

step-Shut :
    (e : Event) (s t : Listener) → no_listen (e ∷ []) ≡ true → step e s ≡ some t → Shut s → Shut t
unfolding step close execute
step-Shut (listens a) s t n p k = cc
step-Shut closes s t n p k = record {
  shut = ground arith;
  closing = ground (arith, k.closing);
  released = ground (arith, k.closing, k.released);
}
step-Shut executes s t n p k = record {
  shut = ground (arith, k.shut);
  closing = ground (arith, k.closing);
  released = ground arith;
}

steps-Shut :
    (es : List Event) (s t : Listener) → no_listen es ≡ true → steps es s ≡ some t → Shut s → Shut t
unfolding steps
steps-Shut [] s t n p k = rw (← some-injective s t p) k
steps-Shut (e ∷ es) s t n p k = elim (Option-cases (step e s)) [
  | inl q ↦ cc (rw (q, steps) at p)
  | inr (u, q) ↦ steps-Shut es u t (rest e n) (rw (q, steps) at p) (step-Shut e s u (first e n) q k)
]
  where
    first : (e : Event) → no_listen (e ∷ es) ≡ true → no_listen (e ∷ []) ≡ true
    first (listens a) n = cc
    first _ n = refl

    rest : (e : Event) → no_listen (e ∷ es) ≡ true → no_listen es ≡ true
    rest (listens a) n = cc
    rest _ n = n

-- On a new listener, after any calls that do not overlap, with the executor of the acceptor running
-- in between: a `close` of the listener while it is open stops it. Whatever further closes come, as
-- long as there is no listen, the acceptor is closed once the executor has run what was posted; and
-- from the close on, every accept throws the cancellation, and a further close changes nothing.
pub close_releases :
    {E : Type 0} (m : States) (ct : CancelToken) (es es' : List Event) (s t : Listener)
    → steps es new_listener ≡ some s
    → s.is_open ≡ true
    → no_listen es' ≡ true
    → steps es' (close s) ≡ some t
    → (t.posted ≡ 0 → t.acceptor ≡ false)
      × (admit {E = E} m ct t ≡ throws (system_error cancelled_ec))
      × (close t ≡ t)
unfolding admit close
close_releases m ct es es' s t p on n q =
    let live = steps-Opened es new_listener s p (λ o. refl) on in
    let k0 : Shut (close s) = record {
      shut = ground arith;
      closing = ground (arith, live);
      released = ground (arith, live);
    } in
    let k = steps-Shut es' (close s) t n q k0 in
    (k.released, ground (arith, k.shut), ground (arith, k.shut, k.closing))
