-- ===== src/Net/Listener/Race.antt =====
-- src/net/asio_tcp.cpp, `tcp_listener_asio`: a listen in one thread and closes in another, whose
-- accesses to the two flags interleave.
use async.Prelude.{
  ◌≡◌, refl, true, false, Option, none, some, List, [], ◌∷◌, arith, if◌then◌else◌, ◌&&◌,
}
use async.Completion.{returns, throws, system_error}
use async.Cancel.{States, CancelToken, cancelled_ec}
use async.Net.Listener.{
  Answers, Listener, prepare, opens, set_up, store_open, store_closing, close_open,
  exchange_closing, execute, admit,
}

-- Where `async_listen` stands: before the call or behind it, and before each of its two stores.
pub data ListenPc : Type 0 where
  away : ListenPc
  at_open : ListenPc
  at_closing : ListenPc

-- Where `close` stands: outside of it, or before the exchange.
pub data ClosePc : Type 0 where
  out : ClosePc
  at_exchange : ClosePc

pub record Race : Type 0 where
  pub listener : Listener
  pub listen_pc : ListenPc
  pub close_pc : ClosePc

-- The calls up to the stores, a store of the listen, an access of the close, and the executor.
pub data Event : Type 0 where
  prepares : Answers → Event
  listens : Event
  closes : Event
  executes : Event

abbrev prepare_at : ListenPc → Answers → Race → Option Race
prepare_at away a s =
    if s.listener.acceptor && opens a
    then none
    else some (record s {
      listener = set_up a s.listener;
      listen_pc = elim (prepare {E = Unit {0}} a) [ returns x ↦ at_open | _ ↦ away ];
    })
prepare_at _ a s = none

abbrev listen_at : ListenPc → Race → Option Race
listen_at at_open s = some (record s { listener = store_open s.listener; listen_pc = at_closing })
listen_at at_closing s = some (record s { listener = store_closing s.listener; listen_pc = away })
listen_at away s = none

abbrev close_at : ClosePc → Race → Race
close_at out s = record s { listener = close_open s.listener; close_pc = at_exchange }
close_at at_exchange s = record s { listener = exchange_closing s.listener; close_pc = out }

unfoldable pub step : Event → Race → Option Race
unfolding execute
step (prepares a) s = prepare_at s.listen_pc a s
step listens s = listen_at s.listen_pc s
step closes s = some (close_at s.close_pc s)
step executes s = elim (execute s.listener) [
  | none ↦ none
  | some l ↦ some (record s { listener = l })
]

unfoldable pub steps : List Event → Race → Option Race
steps [] s = some s
steps (e ∷ es) s = elim (step e s) [ none ↦ none | some t ↦ steps es t ]

-- On a listener that was closed before, and whose acceptor is closed by now: an `async_listen` that
-- succeeds and a `close` of another thread can run such that both have returned, the listener says
-- that it is not open and refuses every accept, and the acceptor is open, with nothing posted to the
-- executor that would close it.
pub close_race :
    (m : States) (ct : CancelToken) (a : Answers) (l : Listener)
    → l.is_closing ≡ true
    → l.acceptor ≡ false
    → l.posted ≡ 0
    → prepare {E = Unit {0}} a ≡ returns tt
    → (es : List Event) × (t : Race) × (steps es
          (record { listener = l; listen_pc = away; close_pc = out })
        ≡ some t)
      × (t.listen_pc ≡ away)
      × (t.close_pc ≡ out)
      × (admit {E = Unit {0}} m ct t.listener ≡ throws (system_error cancelled_ec))
      × (t.listener.is_open ≡ false)
      × (t.listener.acceptor ≡ true)
      × (step executes t ≡ none)
unfolding steps step execute admit
close_race m ct a l k e z ok = (
  prepares a ∷ listens ∷ closes ∷ closes ∷ listens ∷ [],
  record {
    listener = record { is_open = false; is_closing = false; acceptor = true; posted = 0 };
    listen_pc = away;
    close_pc = out;
  },
  ground arith,
  refl,
  refl,
  ground arith,
  refl,
  refl,
  refl,
)
