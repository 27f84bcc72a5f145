-- ===== src/Net/Listener/Tests.antt =====
-- A listener with an acceptor that answers without an error.
use async.Prelude.{ℕ, suc, Bool, ◌≡◌, refl, true, false, none, some, List, [], ◌∷◌}
use async.Completion.{throws, system_error}
use async.Cancel.{States, CancelToken, request, cancelled_ec}
use async.Scheduler.{empty}
use async.Error.{no_error}
use async.IoContext.{service}
use async.Net.Await.{Resumption, completes}
use async.Net.Listener.{Answers, Listener, listens, closes, executes, listen, close, execute, admit}
use async.Net.Listener as Listener
use async.Net.Listener.Release.{close_releases}
use async.Net.Listener.Race.{Race, away, out, close_race}
use async.Net.Listener.Race as Race
use async.Net.Listener.Promises.{World, IsTcpListener, tcp_listener_asio, listener_keeps_promises}

abbrev flags : States
flags = false ∷ []

abbrev live : CancelToken
live = record { st = some 0 }

abbrev accepted : Answers
accepted = record {
  parsed = no_error;
  opened = no_error;
  option_set = no_error;
  bound = no_error;
  listening = no_error;
}

abbrev listening : Listener
listening = record { is_open = true; is_closing = false; acceptor = true; posted = 0 }

-- Two closes, of which one posts, and the executor.
abbrev released : Listener
released = record { is_open = false; is_closing = true; acceptor = false; posted = 0 }

close_releases_example :
    (released.posted ≡ 0 → released.acceptor ≡ false)
    × (admit {E = Unit {0}} flags live released ≡ throws (system_error cancelled_ec))
    × (close released ≡ released)
unfolding Listener.steps Listener.step listen close execute
close_releases_example =
    close_releases flags live (listens accepted ∷ []) (closes ∷ executes ∷ []) listening released
      refl refl refl refl

close_race_example :
    (es : List Race.Event) × (t : Race) × (Race.steps es
        (record { listener = released; listen_pc = away; close_pc = out })
      ≡ some t)
    × (t.listen_pc ≡ away)
    × (t.close_pc ≡ out)
    × (admit {E = Unit {0}} flags live t.listener ≡ throws (system_error cancelled_ec))
    × (t.listener.is_open ≡ false)
    × (t.listener.acceptor ≡ true)
    × (Race.step Race.executes t ≡ none)
close_race_example = close_race flags live accepted released refl refl refl refl

abbrev idle : Resumption ℕ
idle = record { sched = empty; inline = [] }

-- An accept whose client is the stream 7; `suc` makes it 8. Its token is cancelled while it waits.
abbrev arrives : World ℕ ℕ
arrives = record {
  answers = λ ep backlog. accepted;
  net = service 1;
  flags = flags;
  first = [];
  second = request (record { st = some 0 }) ∷ [];
  accepting = completes no_error tt;
  client = 7;
}

listener_keeps_promises_example :
    IsTcpListener
      (λ (w : Bool). arrives.flags)
      (tcp_listener_asio suc true (some 5) idle (λ (w : Bool). arrives) 3)
listener_keeps_promises_example =
    listener_keeps_promises suc true (some 5) idle (λ (w : Bool). arrives) 3
