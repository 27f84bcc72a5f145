-- ===== src/When.antt =====
-- include/vix/async/core/when.hpp: the shared states of `when_all` and `when_any`, their runners and
-- what the awaiting coroutine gets. A task of the pack ends once, with a value or an exception; the
-- runners' code behind that end is one step, as on the scheduler's thread. `V` holds the values of
-- all types of the pack; a pack with a `task<void>` does not compile, for want of a `store_into` and a
-- `materialize_one` that take `void`.
pub mod All
pub mod Any
mod Tests
use async.Prelude.{ℕ, ◌+◌, Bool, true, false, Option, none, some, List, [], ◌∷◌, ◌++◌, set}
use async.Completion.{Completion, returns, throws, undefined, Exception}
use async.Scheduler.{Scheduler, Handle, post_handle}

module _ {V : Type 0} where
  -- `store_into`
  unfoldable pub store_into : ℕ → V → List (Option V) → List (Option V)
  store_into i v slots = set slots i (some v)

  -- `materialize_one`: `none` for `*slot` of an empty slot.
  unfoldable pub materialize_one : Option V → Option V
  materialize_one slot = slot

  abbrev pub and_then : Option V → Option (List V) → Option (List V)
  and_then none r = none
  and_then (some v) none = none
  and_then (some v) (some vs) = some (v ∷ vs)

  -- `materialize_tuple`
  unfoldable pub materialize_tuple : List (Option V) → Option (List V)
  unfolding materialize_one
  materialize_tuple [] = some []
  materialize_tuple (s ∷ slots) = and_then (materialize_one s) (materialize_tuple slots)

-- The exception that is kept: the first one.
abbrev pub keep_first {ℓ} : {X : Type ℓ} → Option X → X → Option X
keep_first none x = some x
keep_first (some y) x = some y

module _ {F : Type 0} where
  -- Resuming the awaiting coroutine: through the scheduler if there is one, or at once. `inline`
  -- lists the handles that were resumed at once.
  abbrev pub resume_cont :
      Bool → Option Handle → Scheduler F × List Handle → Scheduler F × List Handle
  resume_cont true cont (s, inline) = (post_handle cont s, inline)
  resume_cont false none (s, inline) = (s, inline)
  resume_cont false (some h) (s, inline) = (s, inline ++ h ∷ [])
