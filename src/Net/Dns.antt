-- ===== src/Net/Dns.antt =====
-- include/vix/async/net/dns.hpp: the interface of a resolver, and `dns_resolver_asio` of
-- src/net/asio_dns.cpp, which implements it.
use Prim.Native.String.{String}
use async.Prelude.{ℕ, ◌≡◌, Bool, false, ◌&&◌, Option, List, map}
use async.Completion.{Completion, returns, ◌>>=◌}
use async.Cancel.{States, CancelToken, Action, acts, is_cancelled}
use async.Scheduler.{Handle}
use async.Net.Await.{Resumption, Operation, ended}
use async.Net.Sockets.{async_resolve}
use async.Net.Sockets.Outcome.{during, unless_cancelled, resolve_outcome}
use async.Net.Sockets.Limits.{succeeds, cancelled-fails}

pub record ResolvedAddress : Type 0 where
  pub ip : String
  pub port : ℕ

-- `dns_resolver`: `W` is what happens outside during a call.
pub record DnsResolver (E W : Type 0) : Type 0 where
  pub async_resolve : W → String → ℕ → CancelToken → Completion E (List ResolvedAddress)

-- The flags of the tokens when an operation starts and what happens to them until it ends, and what
-- asio answers: entries, each with an endpoint.
pub record World (E P : Type 0) : Type 0 where
  pub flags : States
  pub actions : List Action
  pub resolving : String → ℕ → Operation E (List P)

-- The text of the address of an entry, and its port.
pub record Entry (P : Type 0) : Type 0 where
  pub to_string : P → String
  pub port : P → ℕ

abbrev pub address : {P : Type 0} → Entry P → P → ResolvedAddress
address entry e = record { ip = entry.to_string e; port = entry.port e }

module _ {E P F : Type 0} (entry : Entry P) (has_ctx : Bool) (h : Option Handle)
    (r : Resumption F) where
  unfoldable pub dns_resolver_asio : {W : Type 0} → (W → World E P) → DnsResolver E W
  unfolding async_resolve
  dns_resolver_asio look = record {
    async_resolve = λ w host port ct.
        let v = look w in
        async_resolve has_ctx h r (address entry) (during v.flags v.actions) ct
          (v.resolving host port);
  }

  -- The resolver gives the address and the port of every entry that asio found for the host and the
  -- port, in the order of asio, or asio's error, unless the token is cancelled by the end of the
  -- operation; in particular, what is cancelled before it starts does not succeed.
  pub resolver_outcome :
      {W : Type 0} (look : W → World E P) (w : W) (host : String) (port : ℕ) (ct : CancelToken)
      → let got = (dns_resolver_asio look).async_resolve w host port ct in
        let v = look w in
        (got
          ≡ unless_cancelled
              (acts v.flags v.actions)
              ct
              (ended (v.resolving host port) >>= λ found. returns (map (address entry) found)))
        × (is_cancelled v.flags ct && succeeds got ≡ false)
  unfolding dns_resolver_asio
  resolver_outcome look w host port ct =
      let v = look w in
      let ends =
        resolve_outcome has_ctx h r (address entry) v.flags v.actions ct (v.resolving host port) in
      (ends, rw ends (cancelled-fails v.flags v.actions ct _))
