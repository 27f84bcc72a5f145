-- ===== src/IoContext/Teardown/Deadlock.antt =====
-- When the shutdown does not return.
use async.Prelude.{
  ℕ, ◌≡◌, ◌⊎◌, inl, inr, Bool, true, false, none, some, List, [], ◌∷◌, arith, Option-cases,
}
use mathlib.Core.Option.{some-injective}
use async.IoContext.{Service, gets, shuts_down}
use async.IoContext.Teardown.{Runtime, Event, calls, is_idle, advance, advances}
use async.IoContext.Teardown.PoolStuck.{IsStuck, ahead-busy, advance-IsStuck}
use async.IoContext.Teardown.NetStuck.{IsNetStuck, net_ahead-busy, advance-IsNetStuck}

module _ {F : Type 0} (asks : F → Bool) where
  -- A thread that the shutdown will join is in an access to the context.
  abbrev pub Waits : Runtime F → Type 0
  Waits s = ((i : ℕ) × (f : F) × (asks f ≡ true) × IsStuck i f s) ⊎ IsNetStuck s

  advances-Waits :
      (es : List (Event F)) (s t : Runtime F) → advances asks es s ≡ some t → Waits s → Waits t
  unfolding advances
  advances-Waits [] s t p v = rw (← some-injective s t p) v
  advances-Waits (e ∷ es) s t p v = elim (Option-cases (advance asks e s)) [
    | inl q ↦ cc (rw (q, advances) at p)
    | inr (u, q) ↦ advances-Waits es u t (rw (q, advances) at p) (elim v [
      | inl (i, f, a, w) ↦ inl (i, f, a, advance-IsStuck asks i f a e s u q w)
      | inr w ↦ inr (advance-IsNetStuck asks e s u q w)
    ])
  ]

  -- The shutdown deadlocks with an access from a thread that it joins. While it holds the lifecycle
  -- mutex, and has the thread pool or the network service ahead of it, of which a thread waits in an
  -- access: whatever all threads do from then on, the shutdown does not return, that thread stays
  -- where it is, and no access and no further shutdown gets through.
  pub shutdown_deadlocks :
      (es : List (Event F)) (s t : Runtime F)
      → Waits s
      → advances asks es s ≡ some t
      → Waits t
        × (is_idle t.phase ≡ false)
        × ((v : Service) → advance asks (calls (gets v)) t ≡ none)
        × (advance asks (calls shuts_down) t ≡ none)
  unfolding advance
  shutdown_deadlocks es s t v p =
      let w = advances-Waits es s t p v in
      let busy : is_idle t.phase ≡ false = elim w [
        | inl (i, f, a, u) ↦ ahead-busy t.phase u.0
        | inr u ↦ net_ahead-busy t.phase u.0
      ] in
      (w, busy, (λ x. ground arith), ground arith)
