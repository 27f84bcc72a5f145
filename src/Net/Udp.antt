-- ===== src/Net/Udp.antt =====
-- include/vix/async/net/udp.hpp: the interface of a datagram socket, with what its comments promise,
-- and src/net/asio_udp.cpp, `udp_socket_asio`, which implements it. What asio does to a socket is an
-- argument.
pub mod Promises
mod Tests
use Prim.Native.String.{String}
use async.Prelude.{ℕ, Bool, true, false, not, Option, List, if◌then◌else◌}
use async.Error.{ErrorCode, is_error}
use async.Completion.{Completion, returns, throws, undefined, ◌>>=◌}
use async.Cancel.{States, CancelToken, Action, is_cancelled}
use async.Scheduler.{Handle}
use async.Net.Await.{Resumption, Operation}
use async.Net.Sockets.{
  Call, cancels, closes, co_asio_value, async_bind, async_send_to, async_recv_from,
}
use async.Net.Sockets.Outcome.{during}

pub record UdpEndpoint : Type 0 where
  pub host : String
  pub port : ℕ

pub record UdpDatagram : Type 0 where
  pub from : UdpEndpoint
  pub bytes : ℕ

-- `udp_socket` with objects in `S`: `W` is what happens outside during a call. A buffer is its size.
pub record UdpSocket (E W S : Type 0) : Type 0 where
  pub async_bind : W → UdpEndpoint → S → Completion E (Unit {0}) × S
  pub async_send_to : W → ℕ → UdpEndpoint → CancelToken → S → Completion E ℕ × S
  pub async_recv_from : W → ℕ → CancelToken → S → Completion E UdpDatagram × S
  pub close : S → S
  pub is_open : S → Bool

-- The flags of the tokens when an operation starts and what happens to them until it ends, the error
-- codes of `make_address`, `open` and `bind`, what asio answers, and the endpoint that it writes.
pub record World (E : Type 0) : Type 0 where
  pub flags : States
  pub actions : List Action
  pub parsed : UdpEndpoint → ErrorCode
  pub opened : ErrorCode
  pub bound : ErrorCode
  pub sending : ℕ → UdpEndpoint → Operation E ℕ
  pub receiving : ℕ → Operation E ℕ
  pub src : UdpEndpoint

-- The socket of asio: its calls and its flag, and what an `open` or a `bind` does to it that
-- succeeds, or fails.
pub record AsioSocket (K : Type 0) : Type 0 where
  pub does : Call → K → K
  pub is_open : K → Bool
  pub opens : Bool → K → K
  pub binds : Bool → K → K

module _ {K : Type 0} (asio : AsioSocket K) where
  abbrev pub close : K → K
  close s = if not (asio.is_open s) then s else asio.does closes (asio.does cancels s)

  -- The socket after `async_bind`, with the error codes.
  abbrev pub bind : ErrorCode → ErrorCode → ErrorCode → K → K
  bind parsed opened bound s =
      if is_error parsed
      then s
      else (if is_error opened
          then asio.opens false s
          else asio.binds (not (is_error bound)) (asio.opens true s))

abbrev pub datagram : UdpEndpoint × ℕ → UdpDatagram
datagram (src, received) = record { from = src; bytes = received }

module _ {E K F : Type 0} (asio : AsioSocket K) (has_ctx : Bool) (h : Option Handle)
    (r : Resumption F) where
  -- `look` tells what happens outside during a call.
  unfoldable pub udp_socket_asio : {W : Type 0} → (W → World E) → UdpSocket E W K
  unfolding async_bind async_send_to async_recv_from co_asio_value
  udp_socket_asio look = record {
    async_bind = λ w ep s.
        let v = look w in
        (async_bind (v.parsed ep) v.opened v.bound, bind asio (v.parsed ep) v.opened v.bound s);
    async_send_to = λ w n to ct s.
        let v = look w in
        (async_send_to has_ctx h r (v.parsed to) (during v.flags v.actions) ct (v.sending n to), s);
    async_recv_from = λ w n ct s.
        let v = look w in
        (
          async_recv_from has_ctx h r (during v.flags v.actions) ct (v.receiving n) v.src >>= λ d.
              returns (datagram d),
          s,
        );
    close = close asio;
    is_open = asio.is_open;
  }
