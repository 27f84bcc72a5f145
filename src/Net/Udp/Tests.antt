-- ===== src/Net/Udp/Tests.antt =====
-- A socket that is its flag, and a call that sends and receives what the buffer holds.
use async.Prelude.{ℕ, refl, Bool, true, false, ◌||◌, some, [], ◌∷◌, if◌then◌else◌}
use async.Error.{no_error, Errc, make_error_code}
use async.Scheduler.{empty}
use async.Net.Await.{Resumption, completes}
use async.Net.Sockets.{Call, closes}
use async.Net.Udp.{World, AsioSocket, UdpEndpoint, udp_socket_asio}
use async.Net.Udp.Promises.{IsUdpSocket, datagrams_keep_promises}

abbrev idle : Resumption ℕ
idle = record { sched = empty; inline = [] }

abbrev does : Call → Bool → Bool
does closes s = false
does _ s = s

abbrev flag : AsioSocket Bool
flag = record { does = does; is_open = λ s. s; opens = λ b s. b || s; binds = λ b s. s }

abbrev home : UdpEndpoint
home = record { host = "127.0.0.1"; port = 9 }

-- The argument says whether the bind succeeds.
abbrev look : Bool → World ℕ
look free = record {
  flags = false ∷ [];
  actions = [];
  parsed = λ ep. no_error;
  opened = no_error;
  bound = if free then no_error else make_error_code Errc.rejected;
  sending = λ n to. completes no_error n;
  receiving = λ n. completes no_error n;
  src = home;
}

datagrams_keep_promises_example :
    IsUdpSocket (λ w. (look w).flags) (udp_socket_asio flag true (some 3) idle look)
datagrams_keep_promises_example =
    datagrams_keep_promises flag true (some 3) idle look (λ s. refl) (λ s. refl) (λ s. refl)
