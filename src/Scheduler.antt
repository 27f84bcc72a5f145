-- ===== src/Scheduler.antt =====
-- include/vix/async/core/scheduler.hpp: two FIFO queues, one of coroutine handles and one of
-- callables, and the loop that serves them on one thread. A non-null `std::coroutine_handle<>` is a
-- number, and `F` is the type of the callables; an empty `std::function` is `none`. Each mutex
-- section is one step.
pub mod Drain
pub mod Interleaving
pub mod Schedule
mod Tests
use async.Prelude.{
  ℕ, zero, suc, ◌+◌, Bool, true, false, ◌||◌, not, Option, none, some, List, [], ◌∷◌, ◌++◌, length,
  is_empty, if◌then◌else◌,
}

abbrev pub Handle : Type 0
Handle = ℕ

pub record Scheduler (F : Type 0) : Type 0 where
  pub handle_q : List Handle
  pub fn_q : List (Option F)
  pub stop_requested : Bool
  pub running : Bool

-- What one pass of the loop takes from the queues; `nothing` when it finds them empty with no stop.
pub data Item (F : Type 0) : Type 0 where
  handle : Handle → Item F
  callable : Option F → Item F
  leave : Item F
  nothing : Item F

-- A blocked run waits on the condition variable; only another thread can go on from there. An
-- exception of the code that is run leaves `run` as it comes.
pub data Outcome (F : Type 0) : Type 0 where
  returned : Scheduler F → List (Item F) → Outcome F
  blocked : Scheduler F → List (Item F) → Outcome F
  threw : Scheduler F → List (Item F) → Outcome F
  out_of_fuel : Outcome F

module _ {F : Type 0} where
  abbrev pub empty : Scheduler F
  empty = record { handle_q = []; fn_q = []; stop_requested = false; running = false }

  unfoldable pub post : Option F → Scheduler F → Scheduler F
  post f s = record s { fn_q = s.fn_q ++ f ∷ [] }

  unfoldable pub post_handle : Option Handle → Scheduler F → Scheduler F
  post_handle none s = s
  post_handle (some h) s = record s { handle_q = s.handle_q ++ h ∷ [] }

  unfoldable pub stop : Scheduler F → Scheduler F
  stop s = record s { stop_requested = true }

  unfoldable pub reset : Scheduler F → Scheduler F
  reset s = record s { stop_requested = false }

  unfoldable pub pending_handles : Scheduler F → ℕ
  pending_handles s = length s.handle_q

  unfoldable pub pending_functions : Scheduler F → ℕ
  pending_functions s = length s.fn_q

  unfoldable pub pending : Scheduler F → ℕ
  pending s = length s.handle_q + length s.fn_q

  -- The predicate of `cv_.wait` in `run`.
  unfoldable pub awake : Scheduler F → Bool
  awake s = s.stop_requested || (not (is_empty s.handle_q) || not (is_empty s.fn_q))

  abbrev pub take_from : List Handle → List (Option F) → Scheduler F → Item F × Scheduler F
  take_from (h ∷ hs) fs s = (handle h, record s { handle_q = hs })
  take_from [] (f ∷ fs) s = (callable f, record s { fn_q = fs })
  take_from [] [] s = (if s.stop_requested then leave else nothing, s)

  -- The rest of the mutex section of `run`.
  unfoldable pub take : Scheduler F → Item F × Scheduler F
  take s = take_from s.handle_q s.fn_q s

  abbrev pub set_running : Bool → Scheduler F → Scheduler F
  set_running b s = record s { running = b }

  -- The end of a pass: an empty callable is not called. `body` is what the resumption of a handle,
  -- or a callable, does to the scheduler, and whether it ends with an exception.
  abbrev pub perform :
      (Item F → Scheduler F → Scheduler F × Bool) → Item F → Scheduler F → Scheduler F × Bool
  perform body (handle h) s = body (handle h) s
  perform body (callable (some f)) s = body (callable (some f)) s
  perform body _ s = (s, false)

  -- The log holds what was resumed and called, oldest first.
  abbrev pub noted : Item F → List (Item F)
  noted (handle h) = handle h ∷ []
  noted (callable (some f)) = callable (some f) ∷ []
  noted _ = []

  -- The loop of `run`, with no other thread. The fuel counts its passes.
  unfoldable pub loop :
      (Item F → Scheduler F → Scheduler F × Bool) → ℕ → Scheduler F → List (Item F) → Outcome F
  loop body zero s log = out_of_fuel
  loop body (suc fuel) s log = elim (awake s) [
    | false ↦ blocked s log
    | true ↦ elim (take s).0 [
      | leave ↦ returned (set_running false (take s).1) log
      | other ↦ elim (perform body other (take s).1).1 [
        | true ↦ threw (perform body other (take s).1).0 (log ++ noted other)
        | false ↦ loop body fuel (perform body other (take s).1).0 (log ++ noted other)
      ]
    ]
  ]

  unfoldable pub run : (Item F → Scheduler F → Scheduler F × Bool) → ℕ → Scheduler F → Outcome F
  unfolding loop
  run body fuel s = loop body fuel (set_running true s) []
