-- ===== src/Net/Listener/Promises.antt =====
-- include/vix/async/net/tcp.hpp: the interface of a listener, with what its comments promise, and
-- that `tcp_listener_asio` of src/net/asio_tcp.cpp keeps some of them.
use async.Prelude.{
  ℕ, ◌≡◌, refl, inl, inr, Bool, true, false, not, ◌&&◌, Option, List, arith, if◌then◌else◌,
  Bool-cases,
}
use async.Completion.{Completion, throws, system_error}
use async.Cancel.{States, CancelToken, Action, acts, is_cancelled, cancelled_ec}
use async.Cancel.Sharing.{cancelled_stays}
use async.Scheduler.{Handle}
use async.IoContext.{Access, is_shut_down, service}
use async.Net.Await.{Resumption, Operation}
use async.Net.Sockets.Outcome.{during, unless_cancelled}
use async.Net.Sockets.Limits.{succeeds}
use async.Net.Listener.{Answers, Listener, prepare, listen, close}
use async.Net.Listener.Accept.{async_accept, accepted, accept_outcome}
use async.Net.Tcp.{TcpEndpoint}

-- `tcp_listener` with objects in `S` that accepts streams in `C`: `W` is what happens outside during
-- a call.
pub record TcpListener (E C W S : Type 0) : Type 0 where
  pub async_listen : W → TcpEndpoint → ℕ → S → Completion E (Unit {0}) × S
  pub async_accept : W → CancelToken → S → Completion E C × S
  pub close : S → S
  pub is_open : S → Bool

-- What the acceptor answers, what `ctx_.net()` gives, the flags of the tokens at the guard of an accept and what happens to
-- them, and the stream that the accept is given.
pub record World (E C : Type 0) : Type 0 where
  pub answers : TcpEndpoint → ℕ → Answers
  pub net : Access
  pub flags : States
  pub first : List Action
  pub second : List Action
  pub accepting : Operation E (Unit {0})
  pub client : C

module _ {E C F : Type 0} (no_delay : C → C) (has_ctx : Bool) (h : Option Handle)
    (r : Resumption F) where
  -- `look` tells what happens outside during a call.
  unfoldable pub tcp_listener_asio : {W : Type 0} → (W → World E C) → E → TcpListener E C W Listener
  unfolding listen close async_accept
  tcp_listener_asio look runtime_error = record {
    async_listen = λ w ep backlog s. let a = (look w).answers ep backlog in (prepare a, listen a s);
    async_accept = λ w ct s.
        let v = look w in
        (
          async_accept has_ctx h r no_delay runtime_error v.net v.flags
              (during (acts v.flags v.first) v.second) ct s v.accepting v.client,
          s,
        );
    close = close;
    is_open = λ s. s.is_open;
  }

-- A listen that succeeds leaves the listener open; a closed listener is not open, and a second close
-- does nothing; an accept on a listener that is not open throws the cancellation, and so does one
-- that is cancelled before it starts. `flags` are those at the start of a call.
abbrev pub IsTcpListener : {E C W S : Type 0} → (W → States) → TcpListener E C W S → Type 0
IsTcpListener {W = W} {S = S} flags t =
    ((w : W) (ep : TcpEndpoint) (backlog : ℕ) (s : S)
      → let (done, s') = t.async_listen w ep backlog s in
        succeeds done && not (t.is_open s') ≡ false)
    × ((s : S) → (t.is_open (t.close s) ≡ false) × (t.close (t.close s) ≡ t.close s))
    × ((w : W) (ct : CancelToken) (s : S)
        → let got = (t.async_accept w ct s).0 in
          (if not (t.is_open s)
            then throws (system_error cancelled_ec)
            else unless_cancelled (flags w) ct got)
          ≡ got)

listen-keeps :
    (E : Type 0) (a : Answers) (s : Listener)
    → succeeds (prepare {E = E} a) && not ((listen a s).is_open) ≡ false
unfolding listen
listen-keeps E a s = ground arith

close-keeps : (s : Listener) → ((close s).is_open ≡ false) × (close (close s) ≡ close s)
unfolding close
close-keeps s = ground arith

module _ {E C F : Type 0} (no_delay : C → C) (has_ctx : Bool) (h : Option Handle)
    (r : Resumption F) where
  accept-keeps :
      (e : E) (net : Access) (m : States) (first second : List Action) (ct : CancelToken)
      (s : Listener) (op : Operation E (Unit {0})) (client : C)
      → let got =
          async_accept has_ctx h r no_delay e net m (during (acts m first) second) ct s op client in
        (if not s.is_open then throws (system_error cancelled_ec) else unless_cancelled m ct got)
        ≡ got
  accept-keeps e net m first second ct s op client =
      rw (accept_outcome has_ctx h r no_delay e net m first second ct s op client)
        (by_net net s.is_open _)
    where
      by_net :
          (net : Access) (open_ : Bool) (o : Completion E C)
          → let got = accepted e net open_ m (acts (acts m first) second) ct o in
            (if not open_ then throws (system_error cancelled_ec) else unless_cancelled m ct got)
            ≡ got
      by_net net false o = refl
      by_net is_shut_down true o = ground arith
      by_net (service p) true o = elim (Bool-cases (is_cancelled m ct)) [
        | inl c ↦
            let stays = cancelled_stays (acts m first) second ct (cancelled_stays m first ct c) in
            rw (c, stays) refl
        | inr live ↦ rw live refl
      ]

  -- For calls that do not overlap, `tcp_listener_asio` keeps these promises of `tcp_listener`,
  -- whatever the acceptor answers and whatever happens to the tokens during a call: a listen that
  -- succeeds leaves the listener open; a closed listener is not open, and a second close does
  -- nothing; and an accept throws the `std::system_error` of the cancellation on a listener that is
  -- not open, and where it is cancelled before it starts.
  pub listener_keeps_promises :
      {W : Type 0} (look : W → World E C) (runtime_error : E)
      → IsTcpListener
          (λ w. (look w).flags)
          (tcp_listener_asio no_delay has_ctx h r look runtime_error)
  unfolding tcp_listener_asio
  listener_keeps_promises look e = (
    (λ w ep backlog s. listen-keeps E ((look w).answers ep backlog) s),
    close-keeps,
    (λ w ct s.
        let v = look w in accept-keeps e v.net v.flags v.first v.second ct s v.accepting v.client),
  )
