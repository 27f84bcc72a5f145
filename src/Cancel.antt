-- ===== src/Cancel.antt =====
-- include/vix/async/core/cancel.hpp: shared cancellation flags. The heap of `cancel_state` objects
-- is a list of flags, and a `std::shared_ptr<cancel_state>` is an index into it, or null.
pub mod Sharing
mod Tests
use async.Prelude.{
  ℕ, Bool, true, false, Option, none, some, List, [], ◌∷◌, ◌++◌, length, get_elem?, set,
}
use async.Error.{ErrorCode, Errc, make_error_code}

abbrev pub States : Type 0
States = List Bool

-- `cancel_state::is_cancelled`; a pointer outside the heap does not occur, and reads as false.
unfoldable pub load : States → ℕ → Bool
load m p = elim (get_elem? m p) [ none ↦ false | some b ↦ b ]

-- `cancel_state::request_cancel`
unfoldable pub store : States → ℕ → States
store m p = set m p true

pub record CancelToken : Type 0 where
  pub st : Option ℕ

pub record CancelSource : Type 0 where
  pub st : Option ℕ

-- `cancel_token()`
abbrev pub empty_token : CancelToken
empty_token = record { st = none }

abbrev pub load_ptr : States → Option ℕ → Bool
load_ptr m none = false
load_ptr m (some p) = load m p

unfoldable pub can_cancel : CancelToken → Bool
can_cancel t = elim t.st [ none ↦ false | some p ↦ true ]

unfoldable pub is_cancelled : States → CancelToken → Bool
is_cancelled m t = load_ptr m t.st

-- `cancel_source()`: `std::make_shared` puts a new flag at the end of the heap.
unfoldable pub new_source : States → CancelSource × States
new_source m = (record { st = some (length m) }, m ++ false ∷ [])

unfoldable pub token : CancelSource → CancelToken
token s = record { st = s.st }

abbrev pub store_ptr : States → Option ℕ → States
store_ptr m none = m
store_ptr m (some p) = store m p

unfoldable pub request_cancel : States → CancelSource → States
request_cancel m s = store_ptr m s.st

unfoldable pub source_is_cancelled : States → CancelSource → Bool
source_is_cancelled m s = load_ptr m s.st

unfoldable pub cancelled_ec : ErrorCode
unfolding make_error_code
cancelled_ec = make_error_code Errc.canceled

-- What the owners of a heap of flags do to it.
pub data Action : Type 0 where
  create : Action
  request : CancelSource → Action

pub act : States → Action → States
unfolding new_source request_cancel
act m create = (new_source m).1
act m (request s) = request_cancel m s

pub acts : States → List Action → States
acts m [] = m
acts m (a ∷ as') = acts (act m a) as'
