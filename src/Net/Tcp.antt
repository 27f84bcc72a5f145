-- ===== src/Net/Tcp.antt =====
-- include/vix/async/net/tcp.hpp: the interface of a stream, with what its comments promise, and
-- src/net/asio_tcp.cpp, `tcp_stream_asio`, which implements it. What asio does to a socket is an
-- argument.
pub mod Promises
mod Tests
use Prim.Native.String.{String}
use async.Prelude.{ℕ, Bool, true, false, not, Option, List, if◌then◌else◌}
use async.Completion.{Completion, returns, throws, undefined, system_error, thrown}
use async.Cancel.{States, CancelToken, Action, acts, is_cancelled, cancelled_ec}
use async.Scheduler.{Handle}
use async.IoContext.{Access, is_shut_down, service}
use async.Net.Await.{Resumption, Operation, ended}
use async.Net.Sockets.{
  Call, cancels, shuts_down, closes, co_asio_value, async_connect, async_read, async_write,
}
use async.Net.Sockets.Outcome.{during}
use async.Net.Sockets.Limits.{succeeds}

pub record TcpEndpoint : Type 0 where
  pub host : String
  pub port : ℕ

-- `tcp_stream` with objects in `S`: `W` is what happens outside during a call. A buffer is its size.
pub record TcpStream (E W S : Type 0) : Type 0 where
  pub async_connect : W → TcpEndpoint → CancelToken → S → Completion E (Unit {0}) × S
  pub async_read : W → ℕ → CancelToken → S → Completion E ℕ × S
  pub async_write : W → ℕ → CancelToken → S → Completion E ℕ × S
  pub close : S → S
  pub is_open : S → Bool
  pub native_handle : S → Completion E ℕ

-- The body that the interface gives to `native_handle`; the argument is its `std::runtime_error`.
abbrev pub default_native_handle : {E S : Type 0} → E → S → Completion E ℕ
default_native_handle e s = throws (thrown e)

-- What `ctx_.net()` gives, the flags of the tokens when an operation starts and what happens to them
-- until it ends, and what asio answers.
pub record World (E R : Type 0) : Type 0 where
  pub net : Access
  pub flags : States
  pub first : List Action
  pub second : List Action
  pub resolving : TcpEndpoint → Operation E R
  pub connecting : R → Operation E (Unit {0})
  pub reading : ℕ → Operation E ℕ
  pub writing : ℕ → Operation E ℕ

-- The socket of asio: its calls, its flag, its handle, and what an `asio::async_connect`
-- that succeeds, or fails, does to it.
pub record AsioSocket (K : Type 0) : Type 0 where
  pub does : Call → K → K
  pub is_open : K → Bool
  pub native_handle : K → ℕ
  pub connects : Bool → K → K

abbrev pub close : {K : Type 0} → AsioSocket K → K → K
close asio s =
    if not (asio.is_open s)
    then s
    else asio.does closes (asio.does shuts_down (asio.does cancels s))

module _ {E R K F : Type 0} (asio : AsioSocket K) (has_ctx : Bool) (h : Option Handle)
    (r : Resumption F) where
  -- Asio gets the socket only if the resolution gave results and the token is not cancelled by then.
  abbrev pub connected : Completion E R → World E R → States → CancelToken → K → K
  connected (returns results) w m ct s =
      if is_cancelled m ct then s else asio.connects (succeeds (ended (w.connecting results))) s
  connected _ w m ct s = s

  -- `runtime_error` is what `ctx_.net()` throws behind a shutdown.
  abbrev pub connect :
      E → Access → World E R → TcpEndpoint → CancelToken → K → Completion E (Unit {0}) × K
  connect runtime_error is_shut_down w ep ct s = (throws (thrown runtime_error), s)
  connect runtime_error (service p) w ep ct s =
      let m = acts w.flags w.first in
      let before = during w.flags w.first in
      let results = co_asio_value {E = E} has_ctx h r before ct (w.resolving ep) in
      (
        async_connect has_ctx h r before (during m w.second) ct (w.resolving ep) w.connecting,
        connected results w m ct s,
      )

  -- `look` tells what happens outside during a call.
  unfoldable pub tcp_stream_asio : {W : Type 0} → (W → World E R) → E → TcpStream E W K
  unfolding async_connect async_read async_write co_asio_value is_cancelled
  tcp_stream_asio look runtime_error = record {
    async_connect = λ w ep ct s. connect runtime_error (look w).net (look w) ep ct s;
    async_read = λ w n ct s.
        let v = look w in (async_read has_ctx h r (during v.flags v.first) ct (v.reading n), s);
    async_write = λ w n ct s.
        let v = look w in (async_write has_ctx h r (during v.flags v.first) ct (v.writing n), s);
    close = close asio;
    is_open = asio.is_open;
    native_handle = λ s. returns (asio.native_handle s);
  }
