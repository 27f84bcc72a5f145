-- ===== src/Net/Tcp/Promises.antt =====
-- Promises of the interface `tcp_stream`.
use async.Prelude.{
  ℕ, if◌then◌else◌, ◌≡◌, refl, inl, inr, Bool, true, false, not, ◌&&◌, Option, Bool-cases,
}
use async.Completion.{Completion, returns, throws, undefined, ◌>>=◌}
use async.Cancel.{States, CancelToken, acts, is_cancelled}
use async.Scheduler.{Handle}
use async.IoContext.{Access, is_shut_down, service}
use async.Net.Await.{Resumption, Operation, ended}
use async.Net.Sockets.{closes, co_asio_value}
use async.Net.Sockets.Outcome.{during, unless_cancelled, co_asio_value_lem, connect_outcome}
use async.Net.Sockets.Limits.{succeeds, cancelled-throws, guarded_close}
use async.Net.Tcp.{TcpEndpoint, TcpStream, World, AsioSocket, connected, connect, tcp_stream_asio}

-- A closed stream is not open, and a second close does nothing; a connect, read or write that is
-- cancelled before it starts throws the `std::system_error` of the cancellation; and a connect that
-- succeeds leaves the stream open. `flags` are those at the start of a call, and `shut` says whether
-- the context is shut down by then, where a connect throws another exception.
abbrev pub IsTcpStream : {E W S : Type 0} → (W → States) → (W → Bool) → TcpStream E W S → Type 0
IsTcpStream {W = W} {S = S} flags shut t =
    ((s : S) → (t.is_open (t.close s) ≡ false) × (t.close (t.close s) ≡ t.close s))
    × ((w : W) (n : ℕ) (ct : CancelToken) (s : S)
        → let got = (t.async_read w n ct s).0 in unless_cancelled (flags w) ct got ≡ got)
    × ((w : W) (n : ℕ) (ct : CancelToken) (s : S)
        → let put = (t.async_write w n ct s).0 in unless_cancelled (flags w) ct put ≡ put)
    × ((w : W) (ep : TcpEndpoint) (ct : CancelToken) (s : S)
        → let (done, s') = t.async_connect w ep ct s in
          ((if shut w then done else unless_cancelled (flags w) ct done) ≡ done)
          × (succeeds done && not (t.is_open s') ≡ false))

-- `ctx_.net()` throws.
abbrev pub refuses : Access → Bool
refuses is_shut_down = true
refuses (service p) = false

opened :
    {E K : Type 0} (asio : AsioSocket K) (m : States) (ct : CancelToken)
    (o : Completion E (Unit {0})) (s : K)
    → ((s : K) → asio.is_open (asio.connects true s) ≡ true)
    → succeeds (unless_cancelled m ct o) && not (asio.is_open (asio.connects (succeeds o) s))
      ≡ false
opened {E = E} asio m ct o s opens = elim (Bool-cases (is_cancelled m ct)) [
  | inl c ↦ rw c refl
  | inr live ↦ rw live (by_end o)
]
  where
    by_end :
        (o : Completion E (Unit {0}))
        → succeeds o && not (asio.is_open (asio.connects (succeeds o) s)) ≡ false
    by_end (returns u) = rw (opens s) refl
    by_end (throws x) = refl
    by_end undefined = refl

module _ {E R K F : Type 0} (asio : AsioSocket K) (has_ctx : Bool) (h : Option Handle)
    (r : Resumption F) where
  connected-opens :
      (m m' : States) (ct : CancelToken) (o : Completion E R) (w : World E R) (s : K)
      → ((s : K) → asio.is_open (asio.connects true s) ≡ true)
      → succeeds (
            unless_cancelled m ct
              (o >>= λ results. unless_cancelled m' ct (ended (w.connecting results))))
          && not (asio.is_open (connected asio has_ctx h r (unless_cancelled m ct o) w m ct s))
        ≡ false
  connected-opens m m' ct o w s opens = elim (Bool-cases (is_cancelled m ct)) [
    | inl c ↦ rw c refl
    | inr live ↦ rw live (by_end o live)
  ]
    where
      by_end :
          (o : Completion E R)
          → is_cancelled m ct ≡ false
          → succeeds (o >>= λ results. unless_cancelled m' ct (ended (w.connecting results)))
              && not (asio.is_open (connected asio has_ctx h r o w m ct s))
            ≡ false
      by_end (returns results) live =
          rw live (opened asio m' ct (ended (w.connecting results)) s opens)
      by_end (throws x) live = refl
      by_end undefined live = refl

  connect-keeps :
      (e : E) (a : Access) (w : World E R) (ep : TcpEndpoint) (ct : CancelToken) (s : K)
      → ((s : K) → asio.is_open (asio.connects true s) ≡ true)
      → let (done, s') = connect asio has_ctx h r e a w ep ct s in
        ((if refuses a then done else unless_cancelled w.flags ct done) ≡ done)
        × (succeeds done && not (asio.is_open s') ≡ false)
  connect-keeps e is_shut_down w ep ct s opens = (refl, refl)
  connect-keeps e (service p) w ep ct s opens =
      let m = acts w.flags w.first in
      let resolves = co_asio_value_lem has_ctx h r w.flags w.first ct (w.resolving ep) in
      let ends =
        connect_outcome has_ctx h r w.flags w.first w.second ct (w.resolving ep) w.connecting in
      (
        rw ends (cancelled-throws w.flags w.first ct _),
        rw (ends, resolves)
            (connected-opens m (acts m w.second) ct (ended (w.resolving ep)) w s opens),
      )

  -- For a socket of asio that a close closes and that a successful connect opens, `tcp_stream_asio`
  -- keeps these promises of `tcp_stream`, whatever happens to the tokens during a call: a closed
  -- stream is not open, and a second close does nothing; a read or write that is cancelled before
  -- it starts throws the `std::system_error` of the cancellation, and so does a connect unless the
  -- context is shut down; and a connect that succeeds leaves the stream open. That a write is of
  -- the whole buffer is not among them.
  pub stream_keeps_promises :
      {W : Type 0} (look : W → World E R) (runtime_error : E)
      → ((s : K) → asio.is_open (asio.does closes s) ≡ false)
      → ((s : K) → asio.is_open (asio.connects true s) ≡ true)
      → IsTcpStream
          (λ w. (look w).flags)
          (λ w. refuses (look w).net)
          (tcp_stream_asio asio has_ctx h r look runtime_error)
  unfolding tcp_stream_asio
  stream_keeps_promises look e shuts opens = (
    guarded_close asio.is_open _ (λ s. shuts _),
    (λ w n ct s. transfer (look w) ct ((look w).reading n)),
    (λ w n ct s. transfer (look w) ct ((look w).writing n)),
    (λ w ep ct s. connect-keeps e (look w).net (look w) ep ct s opens),
  )
    where
      transfer :
          (v : World E R) (ct : CancelToken) (op : Operation E ℕ)
          → let got = co_asio_value has_ctx h r (during v.flags v.first) ct op in
            unless_cancelled v.flags ct got ≡ got
      transfer v ct op =
          rw (co_asio_value_lem has_ctx h r v.flags v.first ct op)
            (cancelled-throws v.flags v.first ct (ended op))
