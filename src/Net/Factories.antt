-- ===== src/Net/Factories.antt =====
-- The functions `make_tcp_stream`, `make_tcp_listener`, `make_udp_socket` and `make_dns_resolver` of
-- src/net. The constructor of each object asks the context for its network service.
use async.Prelude.{ℕ, ◌≡◌, ap, true, false, List}
use async.Completion.{Completion, returns, throws, thrown}
use async.IoContext.{Access, is_shut_down, service, IoContext, net, get, Call, shutdown, steps}
use async.IoContext.Lifecycle.{no_shutdown, get_same, shutdown_final}
use async.Net.Listener.{Listener, new_listener}

-- An object, and the service that it refers to.
pub record Made (K : Type 0) : Type 0 where
  pub service_of : ℕ
  pub object : K

module _ {E : Type 0} (runtime_error : E) where
  abbrev pub make : {K : Type 0} → K → Access → Completion E (Made K)
  make fresh is_shut_down = throws (thrown runtime_error)
  make fresh (service p) = returns (record { service_of = p; object = fresh })

  module _ {F : Type 0} where
    -- `fresh` is the socket, or the resolver, that asio makes.
    unfoldable pub make_tcp_stream :
        {K : Type 0} → K → IoContext F → Completion E (Made K) × IoContext F
    unfolding get
    make_tcp_stream fresh c = let (a, c') = get net c in (make fresh a, c')

    unfoldable pub make_udp_socket :
        {K : Type 0} → K → IoContext F → Completion E (Made K) × IoContext F
    unfolding get
    make_udp_socket fresh c = let (a, c') = get net c in (make fresh a, c')

    unfoldable pub make_dns_resolver :
        {K : Type 0} → K → IoContext F → Completion E (Made K) × IoContext F
    unfolding get
    make_dns_resolver fresh c = let (a, c') = get net c in (make fresh a, c')

    unfoldable pub make_tcp_listener : IoContext F → Completion E (Made Listener) × IoContext F
    unfolding get
    make_tcp_listener c = let (a, c') = get net c in (make new_listener a, c')

    -- What each factory gives on a context where an access to the network service gives `a`.
    abbrev pub AllGive : {K : Type 0} → Access → K → IoContext F → Type 0
    AllGive a fresh c =
        ((make_tcp_stream fresh c).0 ≡ make fresh a)
        × ((make_udp_socket fresh c).0 ≡ make fresh a)
        × ((make_dns_resolver fresh c).0 ≡ make fresh a)
        × ((make_tcp_listener c).0 ≡ make new_listener a)

    gives :
        {K : Type 0} (fresh : K) (c : IoContext F) (a : Access)
        → (get net c).0 ≡ a
        → AllGive a fresh c
    unfolding make_tcp_stream make_udp_socket make_dns_resolver make_tcp_listener
    gives fresh c a e = let same = ap (make fresh) e in (same, same, same, ap (make new_listener) e)

    -- A listener that is made on a context, and whatever is made later with no shutdown between,
    -- refer to the same network service; behind a shutdown every factory throws, whatever else is
    -- called.
    pub factories_share :
        {K : Type 0} (fresh : K) (c : IoContext F) (xs ys : List (Call F))
        → c.shutdown_done ≡ false
        → no_shutdown xs ≡ true
        → let (l, c') = make_tcp_listener c in
          (p : ℕ) × (l ≡ make new_listener (service p))
          × AllGive (service p) fresh (steps xs c')
          × AllGive is_shut_down fresh (steps ys (shutdown c))
    unfolding make_tcp_listener
    factories_share fresh c xs ys alive calm =
        let (p, got, again) = get_same net c xs alive calm in
        (
          p,
          ap (make new_listener) got,
          gives fresh _ (service p) again,
          gives fresh _ is_shut_down ((shutdown_final c ys net alive).0),
        )
