-- ===== src/Net/Sockets.antt =====
-- src/net/asio_tcp.cpp, src/net/asio_udp.cpp and src/net/asio_dns.cpp: the coroutines of the stream,
-- of the datagram socket and of the resolver. What asio answers to an operation is an argument, and
-- so is what asio turns an address into. Each await reads the flags of the tokens twice, before the
-- operation starts and when the coroutine goes on.
pub mod Outcome
pub mod Limits
use async.Prelude.{
  ℕ, zero, suc, ◌+◌, ◌-◌, ◌*◌, ◌%◌, ◌^◌, ◌≤◌, ◌<◌, ◌≡◌, refl, sym, ap, ◌∙◌, ◌≢◌, ◌↔◌, ◌⊎◌, inl, inr,
  Bool, true, false, ◌&&◌, ◌||◌, not, Option, none, some, List, [], ◌∷◌, ◌++◌, map, append-nil,
  append_assoc, arith, dec_lt, ℕ_discrete, ltb, leb, ◌==◌, if◌then◌else◌, ltb→lt, lt→ltb, leb→le,
  ==_iff, tests, Bool-cases, Option-cases, length, get_elem?, set, replicate, is_empty, is_some,
  length-append, length-set, get_elem?-some, Each, Each-append, get_elem?-set_self,
  get_elem?-set_other, count, count-append,
}
use async.Error.{ErrorCode}
use async.Completion.{Completion, returns, ◌>>=◌, attempt}
use async.Cancel.{States, CancelToken}
use async.Scheduler.{Scheduler, Handle}
use async.Net.Await.{Resumption, Operation, completes, fails, operate, await_resume, new_awaitable}

-- The flags when an operation starts, and when its coroutine goes on.
pub record Moments : Type 0 where
  pub before : States
  pub later : States

-- The loop of `dns_resolver_asio::async_resolve`, with `out` so far.
abbrev pub push_all : {P A : Type 0} → (P → A) → List P → List A → List A
push_all address [] out = out
push_all address (e ∷ es) out = push_all address es (out ++ address e ∷ [])

-- The calls of `close` on the socket of asio; the argument says whether that is open.
pub data Call : Type 0 where
  cancels : Call
  shuts_down : Call
  closes : Call

unfoldable pub close_stream : Bool → List Call
close_stream is_open = if not is_open then [] else cancels ∷ shuts_down ∷ closes ∷ []

unfoldable pub close_datagram : Bool → List Call
close_datagram is_open = if not is_open then [] else cancels ∷ closes ∷ []

-- `udp_socket_asio::async_bind`, with the error codes of `make_address`, `open` and `bind`.
unfoldable pub async_bind :
    {E : Type 0} → ErrorCode → ErrorCode → ErrorCode → Completion E (Unit {0})
async_bind parsed opened bound = do _ ← attempt parsed; _ ← attempt opened; attempt bound

module _ {E F : Type 0} (has_ctx : Bool) (h : Option Handle) (r : Resumption F) where
  -- `co_asio_value`, and `co_asio_void` with values of type `Unit`.
  unfoldable pub co_asio_value :
      {T : Type 0} → Moments → CancelToken → Operation E T → Completion E T
  unfolding operate await_resume
  co_asio_value m ct op =
      await_resume m.later (operate m.before has_ctx h op (new_awaitable ct) r).0

  -- `tcp_stream_asio::async_connect`: to resolve, then to connect to one of the results.
  unfoldable pub async_connect :
      {R : Type 0}
      → Moments
      → Moments
      → CancelToken
      → Operation E R
      → (R → Operation E (Unit {0}))
      → Completion E (Unit {0})
  async_connect m m' ct resolve connect = do
    results ← co_asio_value m ct resolve
    co_asio_value m' ct (connect results)

  -- `tcp_stream_asio::async_read` and `async_write`: the number of bytes.
  unfoldable pub async_read : Moments → CancelToken → Operation E ℕ → Completion E ℕ
  unfolding co_asio_value
  async_read m ct op = co_asio_value m ct op

  unfoldable pub async_write : Moments → CancelToken → Operation E ℕ → Completion E ℕ
  unfolding co_asio_value
  async_write m ct op = co_asio_value m ct op

  -- `udp_socket_asio::async_send_to`; the first argument is the error code of `make_address`.
  unfoldable pub async_send_to : ErrorCode → Moments → CancelToken → Operation E ℕ → Completion E ℕ
  async_send_to parsed m ct op = do _ ← attempt parsed; co_asio_value m ct op

  -- `udp_socket_asio::async_recv_from`: the number of bytes, and the endpoint `src` that asio has
  -- written by then, as the datagram has it.
  unfoldable pub async_recv_from :
      {S : Type 0} → Moments → CancelToken → Operation E ℕ → S → Completion E (S × ℕ)
  async_recv_from m ct op src = do received ← co_asio_value m ct op; returns (src, received)

  -- `dns_resolver_asio::async_resolve`; `address` is the text and the port of an endpoint.
  unfoldable pub async_resolve :
      {P A : Type 0}
      → (P → A)
      → Moments
      → CancelToken
      → Operation E (List P)
      → Completion E (List A)
  async_resolve address m ct op = do
    results ← co_asio_value m ct op
    returns (push_all address results [])
