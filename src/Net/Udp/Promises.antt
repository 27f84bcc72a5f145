-- ===== src/Net/Udp/Promises.antt =====
-- Promises of the interface `udp_socket`.
use async.Prelude.{ℕ, ◌≡◌, refl, ◌∙◌, Bool, true, false, not, ◌&&◌, Option, arith, if◌then◌else◌}
use async.Error.{ErrorCode, is_error, no_error}
use async.Completion.{Completion, returns, throws, system_error, ◌>>=◌}
use async.Cancel.{States, CancelToken, acts, is_cancelled}
use async.Scheduler.{Handle}
use async.Net.Await.{Resumption, ended}
use async.Net.Sockets.{closes, async_bind, async_send_to, async_recv_from}
use async.Net.Sockets.Outcome.{during, unless_cancelled, unless_cancelled->>=, datagrams_outcome}
use async.Net.Sockets.Limits.{
  succeeds, is_system_error, cancelled-throws, cancelled-is_system_error, guarded_close,
}
use async.Net.Udp.{
  UdpEndpoint, UdpDatagram, UdpSocket, World, AsioSocket, bind, datagram, udp_socket_asio,
}

-- A closed socket is not open, and a second close does nothing; a bind that succeeds leaves the
-- socket open; and what is cancelled before it starts throws a `std::system_error`, a receive the
-- one of the cancellation. `flags` are those at the start of a call.
abbrev pub IsUdpSocket : {E W S : Type 0} → (W → States) → UdpSocket E W S → Type 0
IsUdpSocket {W = W} {S = S} flags t =
    ((s : S) → (t.is_open (t.close s) ≡ false) × (t.close (t.close s) ≡ t.close s))
    × ((w : W) (ep : UdpEndpoint) (s : S)
        → let (done, s') = t.async_bind w ep s in succeeds done && not (t.is_open s') ≡ false)
    × ((w : W) (n : ℕ) (to : UdpEndpoint) (ct : CancelToken) (s : S)
        → let put = (t.async_send_to w n to ct s).0 in
          is_cancelled (flags w) ct && not (is_system_error put) ≡ false)
    × ((w : W) (n : ℕ) (ct : CancelToken) (s : S)
        → let got = (t.async_recv_from w n ct s).0 in unless_cancelled (flags w) ct got ≡ got)

bind-opens :
    {K : Type 0} (E : Type 0) (asio : AsioSocket K) (parsed opened bound : ErrorCode) (s : K)
    → ((s : K) → asio.is_open (asio.opens true s) ≡ true)
    → ((s : K) → asio.is_open (asio.binds true s) ≡ asio.is_open s)
    → succeeds (async_bind {E = E} parsed opened bound)
        && not (asio.is_open (bind asio parsed opened bound s))
      ≡ false
unfolding async_bind
bind-opens E asio parsed opened bound s opens binds =
    let open_ = binds (asio.opens true s) ∙ opens s in ground (arith, open_)

refused :
    {E : Type 0} (b c : Bool) (ec : ErrorCode) (o : Completion E ℕ)
    → c && not (is_system_error o) ≡ false
    → c && not (is_system_error (if b then throws (system_error ec) else o)) ≡ false
refused true true ec o k = refl
refused true false ec o k = refl
refused false c ec o k = k

module _ {E K F : Type 0} (asio : AsioSocket K) (has_ctx : Bool) (h : Option Handle)
    (r : Resumption F) where
  sends :
      (v : World E) (n : ℕ) (to : UdpEndpoint) (ct : CancelToken)
      → let put =
          async_send_to has_ctx h r (v.parsed to) (during v.flags v.actions) ct (v.sending n to) in
        is_cancelled v.flags ct && not (is_system_error put) ≡ false
  sends v n to ct =
      let op = v.sending n to in
      let ends = (datagrams_outcome has_ctx h r (v.parsed to) v.flags v.actions ct op v.src).0 in
      let fails = cancelled-is_system_error v.flags v.actions ct (ended op) in
      rw ends (refused (is_error (v.parsed to)) (is_cancelled v.flags ct) (v.parsed to) _ fails)

  receives :
      (v : World E) (n : ℕ) (ct : CancelToken)
      → let got =
          async_recv_from has_ctx h r (during v.flags v.actions) ct (v.receiving n) v.src >>= λ d.
          returns (datagram d) in
        unless_cancelled v.flags ct got ≡ got
  receives v n ct =
      let op = v.receiving n in
      let m = acts v.flags v.actions in
      let ends = (datagrams_outcome has_ctx h r no_error v.flags v.actions ct op v.src).1 in
      let inner : Completion E (UdpEndpoint × ℕ) = ended op >>= λ n. returns (v.src, n) in
      let datagrams : UdpEndpoint × ℕ → Completion E UdpDatagram = λ d. returns (datagram d) in
      rw (ends, unless_cancelled->>= m ct inner datagrams)
        (cancelled-throws v.flags v.actions ct (inner >>= datagrams))

  -- For a socket of asio that a close closes, that an open that succeeds opens and a bind that
  -- succeeds leaves open, `udp_socket_asio` keeps these promises of `udp_socket`, whatever happens
  -- to the tokens during a call: a closed socket is not open, and a second close does nothing; a
  -- bind that succeeds leaves the socket open; a send that is cancelled before it starts throws a
  -- `std::system_error`, and a receive that is throws the one of the cancellation.
  pub datagrams_keep_promises :
      {W : Type 0} (look : W → World E)
      → ((s : K) → asio.is_open (asio.does closes s) ≡ false)
      → ((s : K) → asio.is_open (asio.opens true s) ≡ true)
      → ((s : K) → asio.is_open (asio.binds true s) ≡ asio.is_open s)
      → IsUdpSocket (λ w. (look w).flags) (udp_socket_asio asio has_ctx h r look)
  unfolding udp_socket_asio
  datagrams_keep_promises look shuts opens binds = (
    guarded_close asio.is_open _ (λ s. shuts _),
    (λ w ep s. let v = look w in bind-opens E asio (v.parsed ep) v.opened v.bound s opens binds),
    (λ w n to ct s. sends (look w) n to ct),
    (λ w n ct s. receives (look w) n ct),
  )
