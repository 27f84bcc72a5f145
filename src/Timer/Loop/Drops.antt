-- ===== src/Timer/Loop/Drops.antt =====
-- Which entries the timer drops.
use async.Prelude.{
  ℕ, ◌≡◌, inl, inr, true, some, List, [], ◌∷◌, arith, Option-cases, Bool-cases, Each, Each-append,
}
use async.Cancel.{States, CancelSource, is_cancelled, request_cancel}
use async.Cancel.Sharing.{request_cancel-stays}
use async.Timer.{Entry}
use async.Timer.Loop.{
  Pc, checking, due, System, Event, cancels, checks, fires, start, check_from, check_at, fire_at,
  step, steps,
}

module _ {J : Type 0} where
  -- The entry's token is cancelled.
  abbrev pub IsCancelled : States → Entry J → Type 0
  IsCancelled flags e = is_cancelled flags e.ct ≡ true

  Each-request_cancel :
      (flags : States) (c : CancelSource) (es : List (Entry J))
      → Each (IsCancelled flags) es
      → Each (IsCancelled (request_cancel flags c)) es
  Each-request_cancel flags c [] h = tt
  Each-request_cancel flags c (e ∷ es) h =
      (request_cancel-stays flags c e.ct h.0, Each-request_cancel flags c es h.1)

  abbrev Sound : System J → Type 0
  Sound s = Each (IsCancelled s.flags) s.dropped

  check_from-Sound :
      (next : Entry J) (q : List (Entry J)) (s : System J) → Sound s → Sound (check_from next q s)
  check_from-Sound next [] s h = h
  check_from-Sound next (x ∷ rest) s h = ground (arith, h)

  check_at-Sound : (pc : Pc J) (s t : System J) → check_at pc s ≡ some t → Sound s → Sound t
  check_at-Sound (checking next) s t p h = ground (arith, h, check_from-Sound next s.timer.q s h)
  check_at-Sound _ s t p h = cc

  fire_at-Sound : (pc : Pc J) (s t : System J) → fire_at pc s ≡ some t → Sound s → Sound t
  fire_at-Sound (due next) s t p h = elim (Bool-cases (is_cancelled s.flags next.ct)) [
    | inl yes' ↦
        ground (arith, Each-append (IsCancelled s.flags) s.dropped (next ∷ []) h (yes', tt))
    | inr no' ↦ ground (arith, h)
  ]
  fire_at-Sound _ s t p h = cc

  step-Sound : (e : Event J) (s t : System J) → step e s ≡ some t → Sound s → Sound t
  unfolding step
  step-Sound (cancels c) s t p h = ground (arith, Each-request_cancel s.flags c s.dropped h)
  step-Sound checks s t p h = check_at-Sound s.pc s t p h
  step-Sound fires s t p h = fire_at-Sound s.pc s t p h
  step-Sound _ s t p h = ground (arith, h)

  steps-Sound : (es : List (Event J)) (s t : System J) → steps es s ≡ some t → Sound s → Sound t
  unfolding steps
  steps-Sound [] s t p h = ground (arith, h)
  steps-Sound (e ∷ es) s t p h = elim (Option-cases (step e s)) [
    | inl q ↦ cc (rw (q, steps) at p)
    | inr (u, q) ↦ steps-Sound es u t (rw (q, steps) at p) (step-Sound e s u q h)
  ]

  -- Under every interleaving, from a new timer on, the thread drops no entry but one whose token is
  -- cancelled: an entry that nobody has cancelled, and so any entry without a source, is never lost
  -- this way.
  pub drops-IsCancelled :
      (now : ℕ) (flags : States) (es : List (Event J)) (t : System J)
      → steps es (start now flags) ≡ some t
      → Each (IsCancelled t.flags) t.dropped
  drops-IsCancelled now flags es t p = steps-Sound es (start now flags) t p tt
