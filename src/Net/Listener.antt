-- ===== src/Net/Listener.antt =====
-- src/net/asio_tcp.cpp, `tcp_listener_asio`: its two atomic flags, its acceptor, and the lambdas that
-- `close` posts to the executor of the acceptor, which takes them without an exception. What the
-- acceptor of asio answers is an argument; it does not open an acceptor that is open.
pub mod Accept
pub mod Promises
pub mod Race
pub mod Release
mod Tests
use async.Prelude.{
  ℕ, zero, suc, ◌+◌, Bool, true, false, ◌||◌, ◌&&◌, not, Option, none, some, List, [], ◌∷◌,
  if◌then◌else◌,
}
use async.Error.{ErrorCode, is_error}
use async.Completion.{Completion, returns, throws, system_error, ◌>>=◌, attempt}
use async.Cancel.{States, CancelToken, is_cancelled, cancelled_ec}

pub record Listener : Type 0 where
  pub is_open : Bool
  pub is_closing : Bool
  pub acceptor : Bool  -- `acc_->is_open()`
  pub posted : ℕ  -- the lambdas that the executor has not run

-- The error codes of `make_address`, which throws it as a `system_error`, and of `open`,
-- `set_option`, `bind` and `listen` on the acceptor.
pub record Answers : Type 0 where
  pub parsed : ErrorCode
  pub opened : ErrorCode
  pub option_set : ErrorCode
  pub bound : ErrorCode
  pub listening : ErrorCode

module _ {E : Type 0} where
  -- `async_listen` up to the flags: the first error is thrown.
  abbrev pub prepare : Answers → Completion E (Unit {0})
  prepare a = do
    _ ← attempt a.parsed
    _ ← attempt a.opened
    _ ← attempt a.option_set
    _ ← attempt a.bound
    attempt a.listening

  -- The guard of `async_accept`: whether it goes on to the acceptor.
  unfoldable pub admit : States → CancelToken → Listener → Completion E (Unit {0})
  unfolding is_cancelled cancelled_ec
  admit m ct s =
      if is_cancelled m ct || not s.is_open then throws (system_error cancelled_ec) else returns tt

-- Whether the acceptor is opened by the calls of `async_listen`, which does not close it again on an
-- error that comes after `open`.
abbrev pub opens : Answers → Bool
opens a = not (is_error a.parsed) && not (is_error a.opened)

abbrev pub set_up : Answers → Listener → Listener
set_up a s = record s { acceptor = s.acceptor || opens a }

-- The two stores at the end of `async_listen`.
abbrev pub store_open : Listener → Listener
store_open s = record s { is_open = true }

abbrev pub store_closing : Listener → Listener
store_closing s = record s { is_closing = false }

-- `close`: its store to `open_`, and its exchange on `closing_` with what follows.
abbrev pub close_open : Listener → Listener
close_open s = record s { is_open = false }

abbrev pub exchange_closing : Listener → Listener
exchange_closing s =
    if s.is_closing then s else record s { is_closing = true; posted = s.posted + 1 }

-- The posted lambda, which cancels and closes an acceptor that is open.
abbrev run_posted : ℕ → Listener → Option Listener
run_posted zero s = none
run_posted (suc n) s = some (record s { acceptor = false; posted = n })

unfoldable pub execute : Listener → Option Listener
execute s = run_posted s.posted s

unfoldable pub listen : Answers → Listener → Listener
listen a s =
    let s' = set_up a s in
    elim (prepare {E = Unit {0}} a) [ returns x ↦ store_closing (store_open s') | _ ↦ s' ]

unfoldable pub close : Listener → Listener
close s = exchange_closing (close_open s)

-- Calls that do not overlap, and the executor.
pub data Event : Type 0 where
  listens : Answers → Event
  closes : Event
  executes : Event

unfoldable pub step : Event → Listener → Option Listener
unfolding listen close execute
step (listens a) s = if s.acceptor && opens a then none else some (listen a s)
step closes s = some (close s)
step executes s = execute s

unfoldable pub steps : List Event → Listener → Option Listener
steps [] s = some s
steps (e ∷ es) s = elim (step e s) [ none ↦ none | some t ↦ steps es t ]

abbrev pub new_listener : Listener
new_listener = record { is_open = false; is_closing = false; acceptor = false; posted = 0 }
