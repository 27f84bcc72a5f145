-- ===== src/Timer.antt =====
-- include/vix/async/core/timer.hpp and src/core/timer.cpp: the ordered queue of the timer. A time
-- point is a number of clock ticks, and `J` is the type of the jobs.
pub mod Order
pub mod Loop
pub mod Sleep
use async.Prelude.{
  ℕ, ◌+◌, ◌-◌, ◌%◌, ◌^◌, Bool, true, false, not, Option, none, some, List, [], ◌∷◌, ltb, leb, ◌==◌,
  if◌then◌else◌,
}
use async.Cancel.{CancelToken}

pub record Entry (J : Type 0) : Type 0 where
  pub when : ℕ
  pub id : ℕ  -- std::uint64_t
  pub ct : CancelToken
  pub job : J

-- `q` is the multiset, in its order.
pub record Timer (J : Type 0) : Type 0 where
  pub q : List (Entry J)
  pub seq : ℕ  -- std::uint64_t
  pub stop : Bool

module _ {J : Type 0} where
  abbrev pub new_timer : Timer J
  new_timer = record { q = []; seq = 0; stop = false }

  -- `struct cmp`
  unfoldable pub cmp : Entry J → Entry J → Bool
  cmp a b = if not (a.when == b.when) then ltb a.when b.when else ltb a.id b.id

  -- `std::multiset::insert`: behind every entry that is not above the new one.
  unfoldable pub insert : Entry J → List (Entry J) → List (Entry J)
  insert e [] = e ∷ []
  insert e (x ∷ xs) = if cmp e x then e ∷ x ∷ xs else x ∷ insert e xs

  -- `schedule`; a null job is `none`.
  unfoldable pub schedule : ℕ → Option J → CancelToken → Timer J → Timer J
  schedule tp none ct t = t
  schedule tp (some j) ct t =
      if t.stop
      then t
      else (let id = (t.seq + 1) % 2 ^ 64 in
          record t { seq = id; q = insert (record { when = tp; id = id; ct = ct; job = j }) t.q })

  -- `after`, at the clock's value `now`. The clock counts nanoseconds in a `std::int64_t`; `none` is
  -- the undefined behaviour of a sum that is none.
  unfoldable pub after : ℕ → ℕ → Option J → CancelToken → Timer J → Option (Timer J)
  unfolding schedule
  after now d j ct t = if leb (2 ^ 63) (now + d) then none else some (schedule (now + d) j ct t)

  unfoldable pub stop : Timer J → Timer J
  stop t = record t { stop = true; q = [] }
