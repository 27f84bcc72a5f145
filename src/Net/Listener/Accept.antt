-- ===== src/Net/Listener/Accept.antt =====
-- src/net/asio_tcp.cpp, `tcp_listener_asio`: an accept, behind the guard of the listener.
use async.Prelude.{
  ℕ, true, false, ◌≡◌, ◌∙◌, ap, refl, inl, inr, not, Bool, Option, List, arith, if◌then◌else◌,
  Bool-cases,
}
use async.Error.{is_error}
use async.Completion.{Completion, returns, throws, system_error, thrown, ◌>>=◌}
use async.Cancel.{States, CancelToken, Action, acts, is_cancelled, cancelled_ec}
use async.Cancel.Sharing.{cancelled_stays}
use async.Scheduler.{Handle}
use async.IoContext.{Access, is_shut_down, service}
use async.Net.Await.{Resumption, Operation, completes, fails, ended}
use async.Net.Listener.{Listener, admit}
use async.Net.Sockets.{Moments, co_asio_value}
use async.Net.Sockets.Outcome.{during, unless_cancelled, unless_cancelled->>=, co_asio_value_lem}

module _ {E C : Type 0} where
  -- What an accept ends with, behind a guard at the flags `m` and an acceptor that gives `o`.
  abbrev pub accepted :
      E → Access → Bool → States → States → CancelToken → Completion E C → Completion E C
  accepted e net false m end ct o = throws (system_error cancelled_ec)
  accepted e is_shut_down true m end ct o = unless_cancelled m ct (throws (thrown e))
  accepted e (service p) true m end ct o = unless_cancelled end ct o

  by_open :
      (e : E) (p : ℕ) (b : Bool) (m end : States) (ct : CancelToken) (o : Completion E C)
      → (if not b then throws (system_error cancelled_ec) else unless_cancelled end ct o)
        ≡ accepted e (service p) b m end ct o
  by_open e p true m end ct o = refl
  by_open e p false m end ct o = refl

module _ {E F : Type 0} (has_ctx : Bool) (h : Option Handle) (r : Resumption F) where
  module _ {C : Type 0} (no_delay : C → C) where
    -- The handler of the acceptor: `client` is the stream as asio leaves it, and `no_delay` sets the
    -- option on it.
    abbrev pub on_accept : Operation E (Unit {0}) → C → C
    on_accept (completes ec v) client = if is_error ec then client else no_delay client
    on_accept (fails x) client = client

    -- `ctx_.net()`, in the constructor of the new stream.
    abbrev pub get_net : E → Access → Completion E (Unit {0})
    get_net runtime_error is_shut_down = throws (thrown runtime_error)
    get_net runtime_error (service p) = returns tt

    -- `async_accept`, where the flags are `m` at the guard; `runtime_error` is what `ctx_.net()`
    -- throws behind a shutdown.
    unfoldable pub async_accept :
        E
        → Access
        → States
        → Moments
        → CancelToken
        → Listener
        → Operation E (Unit {0})
        → C
        → Completion E C
    async_accept runtime_error net m n ct s op client = do
      _ ← admit m ct s
      _ ← get_net runtime_error net
      _ ← co_asio_value has_ctx h r n ct op
      returns (on_accept op client)

    guarded :
        (m : States) (first second : List Action) (ct : CancelToken) (s : Listener)
        (o : Completion E C)
        → (admit {E = E} m ct s >>= λ _. unless_cancelled (acts (acts m first) second) ct o) ≡ (
            if not s.is_open
            then throws (system_error cancelled_ec)
            else unless_cancelled (acts (acts m first) second) ct o)
    unfolding admit
    guarded m first second ct s o = elim (Bool-cases (is_cancelled m ct)) [
      | inl c ↦
          ground (arith, c, cancelled_stays (acts m first) second ct (cancelled_stays m first ct c))
      | inr live ↦ ground (arith, live)
    ]

    ended-on_accept :
        (op : Operation E (Unit {0})) (client : C)
        → (ended op >>= λ _. returns (on_accept op client))
          ≡ (ended op >>= λ _. returns (no_delay client))
    ended-on_accept (completes ec v) client = ground arith
    ended-on_accept (fails x) client = refl

    -- The guard of an accept, then a stream, then the acceptor.
    pub accept_outcome :
        (e : E) (net : Access) (m : States) (first second : List Action) (ct : CancelToken)
        (s : Listener) (op : Operation E (Unit {0})) (client : C)
        → async_accept e net m (during (acts m first) second) ct s op client
          ≡ accepted e net s.is_open m
              (acts (acts m first) second)
              ct
              (ended op >>= λ _. returns (no_delay client))
    unfolding async_accept admit
    accept_outcome e is_shut_down m first second ct s op client = ground arith
    accept_outcome e (service p) m first second ct s op client =
        let end = acts (acts m first) second in
        ap (λ o. admit {E = E} m ct s >>= λ _. o)
          (ap (λ o. o >>= λ _. returns (on_accept op client))
              (co_asio_value_lem has_ctx h r (acts m first) second ct op)
            ∙ unless_cancelled->>= end ct (ended op) _
            ∙ ap (unless_cancelled end ct) (ended-on_accept op client))
        ∙ guarded m first second ct s _
        ∙ by_open e p s.is_open m end ct _
