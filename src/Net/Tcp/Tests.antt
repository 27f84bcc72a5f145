-- ===== src/Net/Tcp/Tests.antt =====
-- A socket that is its flag, and a call that reads and writes what the buffer holds.
use async.Prelude.{ℕ, refl, Bool, true, false, ◌||◌, some, [], ◌∷◌, if◌then◌else◌}
use async.Error.{no_error}
use async.Cancel.{States, CancelToken}
use async.Cancel
use async.Scheduler.{empty}
use async.IoContext.{is_shut_down, service}
use async.Net.Await.{Resumption, completes}
use async.Net.Sockets.{Call, closes}
use async.Net.Tcp.{World, AsioSocket, tcp_stream_asio}
use async.Net.Tcp.Promises.{IsTcpStream, refuses, stream_keeps_promises}

abbrev idle : Resumption ℕ
idle = record { sched = empty; inline = [] }

abbrev does : Call → Bool → Bool
does closes s = false
does _ s = s

abbrev flag : AsioSocket Bool
flag = record { does = does; is_open = λ s. s; native_handle = λ s. 7; connects = λ b s. b || s }

-- The argument says whether the context is alive; the token is cancelled during the call.
abbrev look : Bool → World ℕ ℕ
look alive = record {
  net = if alive then service 0 else is_shut_down;
  flags = false ∷ [];
  first = Cancel.request (record { st = some 0 }) ∷ [];
  second = [];
  resolving = λ ep. completes no_error ep.port;
  connecting = λ results. completes no_error tt;
  reading = λ n. completes no_error n;
  writing = λ n. completes no_error n;
}

stream_keeps_promises_example :
    IsTcpStream
      (λ w. (look w).flags)
      (λ w. refuses (look w).net)
      (tcp_stream_asio flag true (some 3) idle look 5)
stream_keeps_promises_example =
    stream_keeps_promises flag true (some 3) idle look 5 (λ s. refl) (λ s. refl)
